-- ===== src/Persistence.antt =====
-- The Postgres repositories and mappers of apps/sender, apps/audience, apps/parser and apps/auth
-- (infrastructure/outbound/persistence). The database under Drizzle is a parameter.
pub mod Laws
use email_platform_services.Common.{
  ℕ, ◌≡◌, String, Option, none, some, List, [], ◌∷◌, Outcome, ok, throws, answer, not_implemented,
}
use email_platform_services.Sender.Application.{CampaignEntity}

-- A row: the columns that a mapper gives, and the time stamps, which default to the time of the
-- insertion.
pub record Row (Columns : Type 0) : Type 0 where
  pub columns : Columns
  pub created_at : ℕ
  pub updated_at : ℕ

-- A table with the primary key `key`, a uuid in its canonical text. `select` is `select().from(...).where(eq(id, ...)).limit(1)`,
-- `upsert` is `insert(...).values(...).onConflictDoUpdate({ target: id, set })`, where `set`
-- changes a row that is there, but not its key.
pub record Table (Columns : Type 0) (key : Columns → String) : Type 1 where
  pub Store : Type 0
  pub held : Store → String → Option (Row Columns)
  pub default_now : Store → ℕ
  pub select : String → Store → Outcome (List (Row Columns)) × Store
  pub upsert : Columns → (Row Columns → Row Columns) → Store → Outcome (Unit {0}) × Store
  pub held_key :
      (s : Store) (id : String) (row : Row Columns) → held s id ≡ some row → key row.columns ≡ id
  pub select_ok :
      (id : String) (s : Store) (rows : List (Row Columns))
      → (select id s).0 ≡ ok rows
      → rows ≡ elim (held s id) [ none ↦ [] | some row ↦ row ∷ [] ]
  pub upsert_ok :
      (new : Columns) (set : Row Columns → Row Columns) (s : Store)
      → ((row : Row Columns) → key (set row).columns ≡ key row.columns)
      → (upsert new set s).0 ≡ ok tt
      → held (upsert new set s).1 (key new)
        ≡ some (elim (held s (key new)) [
          | none ↦ record { columns = new; created_at = default_now s; updated_at = default_now s }
          | some row ↦ set row
        ])

-- `rows[0]`, mapped, or `null`.
unfoldable pub first_of : {C A : Type 0} → (Row C → A) → List (Row C) → Option A
first_of to_domain [] = none
first_of to_domain (row ∷ rows) = some (to_domain row)

pub record CampaignColumns : Type 0 where
  pub id : String
  pub name : String
  pub status : String

unfoldable pub campaign_to_domain : Row CampaignColumns → CampaignEntity
campaign_to_domain row = record {
  id = row.columns.id;
  name = row.columns.name;
  status = row.columns.status;
}

unfoldable pub campaign_to_persistence : CampaignEntity → CampaignColumns
campaign_to_persistence c = record { id = c.id; name = c.name; status = c.status }

-- The `set` of `save`; `now` is `new Date()`.
unfoldable pub campaign_set : CampaignEntity → ℕ → Row CampaignColumns → Row CampaignColumns
campaign_set c now row = record row {
  columns = record (row.columns) { name = c.name; status = c.status };
  updated_at = now;
}

module _ (campaigns : Table CampaignColumns (λ c. c.id)) where
  unfoldable pub find_campaign :
      String → campaigns.Store → Outcome (Option CampaignEntity) × campaigns.Store
  unfolding first_of campaign_to_domain
  find_campaign id s = answer (first_of campaign_to_domain) (campaigns.select id s)

  unfoldable pub save_campaign :
      CampaignEntity → ℕ → campaigns.Store → Outcome (Unit {0}) × campaigns.Store
  unfolding campaign_to_persistence campaign_set
  save_campaign c now = campaigns.upsert (campaign_to_persistence c) (campaign_set c now)

pub record RecipientEntity : Type 0 where
  pub id : String
  pub email : String
  pub group_id : String

pub record RecipientColumns : Type 0 where
  pub id : String
  pub email : String
  pub group_id : String

unfoldable pub recipient_to_domain : Row RecipientColumns → RecipientEntity
recipient_to_domain row = record {
  id = row.columns.id;
  email = row.columns.email;
  group_id = row.columns.group_id;
}

unfoldable pub recipient_to_persistence : RecipientEntity → RecipientColumns
recipient_to_persistence r = record { id = r.id; email = r.email; group_id = r.group_id }

unfoldable pub recipient_set : RecipientEntity → ℕ → Row RecipientColumns → Row RecipientColumns
recipient_set r now row = record row {
  columns = record (row.columns) { email = r.email; group_id = r.group_id };
  updated_at = now;
}

module _ (recipients : Table RecipientColumns (λ r. r.id)) where
  unfoldable pub find_recipient :
      String → recipients.Store → Outcome (Option RecipientEntity) × recipients.Store
  unfolding first_of recipient_to_domain
  find_recipient id s = answer (first_of recipient_to_domain) (recipients.select id s)

  unfoldable pub save_recipient :
      RecipientEntity → ℕ → recipients.Store → Outcome (Unit {0}) × recipients.Store
  unfolding recipient_to_persistence recipient_set
  save_recipient r now = recipients.upsert (recipient_to_persistence r) (recipient_set r now)

pub record ParserTask : Type 0 where
  pub id : String
  pub status : String
  pub category : String

pub record ParserTaskColumns : Type 0 where
  pub id : String
  pub status : String
  pub category : String

unfoldable pub task_to_domain : Row ParserTaskColumns → ParserTask
task_to_domain row = record {
  id = row.columns.id;
  status = row.columns.status;
  category = row.columns.category;
}

unfoldable pub task_to_persistence : ParserTask → ParserTaskColumns
task_to_persistence t = record { id = t.id; status = t.status; category = t.category }

unfoldable pub task_set : ParserTask → ℕ → Row ParserTaskColumns → Row ParserTaskColumns
task_set t now row = record row {
  columns = record (row.columns) { status = t.status; category = t.category };
  updated_at = now;
}

module _ (tasks : Table ParserTaskColumns (λ t. t.id)) where
  unfoldable pub find_task : String → tasks.Store → Outcome (Option ParserTask) × tasks.Store
  unfolding first_of task_to_domain
  find_task id s = answer (first_of task_to_domain) (tasks.select id s)

  unfoldable pub save_task : ParserTask → ℕ → tasks.Store → Outcome (Unit {0}) × tasks.Store
  unfolding task_to_persistence task_set
  save_task t now = tasks.upsert (task_to_persistence t) (task_set t now)

pub record User : Type 0 where
  pub id : String
  pub email : String
  pub role : String
  pub organization : String
  pub team : String

pub record UserColumns : Type 0 where
  pub id : String
  pub email : String
  pub password_hash : String
  pub role : String
  pub organization : String
  pub team : String

unfoldable pub user_to_domain : Row UserColumns → User
user_to_domain row = record {
  id = row.columns.id;
  email = row.columns.email;
  role = row.columns.role;
  organization = row.columns.organization;
  team = row.columns.team;
}

unfoldable pub user_to_persistence : User → String → UserColumns
user_to_persistence u password_hash = record {
  id = u.id;
  email = u.email;
  password_hash = password_hash;
  role = u.role;
  organization = u.organization;
  team = u.team;
}

unfoldable pub user_set : User → ℕ → Row UserColumns → Row UserColumns
user_set u now row = record row {
  columns = record (row.columns) {
    email = u.email;
    role = u.role;
    organization = u.organization;
    team = u.team;
  };
  updated_at = now;
}

module _ (users : Table UserColumns (λ u. u.id)) where
  unfoldable pub save_user : User → ℕ → users.Store → Outcome (Unit {0}) × users.Store
  unfolding user_to_persistence user_set
  save_user u now = users.upsert (user_to_persistence u "") (user_set u now)

  -- `findByEmail`; `select_email` is `select().from(users).where(eq(users.email, email)).limit(1)`.
  unfoldable pub find_by_email :
      (String → users.Store → Outcome (List (Row UserColumns)) × users.Store)
      → String
      → users.Store
      → Outcome (Option User) × users.Store
  unfolding first_of user_to_domain
  find_by_email select_email email s = answer (first_of user_to_domain) (select_email email s)

pub record GroupEntity : Type 0 where
  pub id : String
  pub name : String
  pub user_id : String

pub record GroupPage : Type 0 where
  pub groups : List GroupEntity
  pub total : ℕ

-- `PgGroupRepository`, which has no table yet.
module _ {S : Type 0} where
  unfoldable pub find_all_groups : ℕ → ℕ → String → S → Outcome GroupPage × S
  find_all_groups limit offset user_id = not_implemented "PgGroupRepository.findAll"

  unfoldable pub find_group : String → S → Outcome (Option GroupEntity) × S
  find_group id = not_implemented "PgGroupRepository.findById"

  unfoldable pub save_group : GroupEntity → S → Outcome (Unit {0}) × S
  save_group group = not_implemented "PgGroupRepository.save"

  unfoldable pub delete_group_by_id : String → S → Outcome (Unit {0}) × S
  delete_group_by_id id = not_implemented "PgGroupRepository.deleteById"
