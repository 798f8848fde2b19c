-- ===== src/Persistence/Laws.antt =====
-- What a repository finds after a save.
use email_platform_services.Common.{
  ℕ, ◌≡◌, ◌⊎◌, refl, ap, ◌∙◌, String, Option, none, some, List, ok, answer-eq-ok, Option-cases, inl,
  inr,
}
use email_platform_services.Sender.Application.{CampaignEntity}
use email_platform_services.Persistence.{
  Row, Table, first_of, CampaignColumns, campaign_to_domain, campaign_to_persistence, campaign_set,
  find_campaign, save_campaign, RecipientEntity, RecipientColumns, find_recipient, save_recipient,
  recipient_to_domain, recipient_to_persistence, recipient_set, User, UserColumns, user_to_domain,
  user_to_persistence, user_set, save_user, ParserTask, ParserTaskColumns, find_task, save_task,
  task_to_domain, task_to_persistence, task_set,
}

-- What an inserted row and a changed row both stand for is found under the key after the save.
found_after_save :
    {C A : Type 0} {key : C → String} (t : Table C key) (to_domain : Row C → A) (new : C)
    (set : Row C → Row C) (entity : A) (s : t.Store) (rows : List (Row C))
    → ((now : ℕ)
        → to_domain (record { columns = new; created_at = now; updated_at = now }) ≡ entity)
    → ((row : Row C) → key row.columns ≡ key new → to_domain (set row) ≡ entity)
    → ((row : Row C) → key (set row).columns ≡ key row.columns)
    → (t.upsert new set s).0 ≡ ok tt
    → (t.select (key new) (t.upsert new set s).1).0 ≡ ok rows
    → first_of to_domain rows ≡ some entity
unfolding first_of
found_after_save {key = key} t to_domain new set entity s rows inserted changed keeps saved
      selected =
    let held = t.upsert_ok new set s keeps saved in
    let same = t.select_ok (key new) _ rows selected in
    elim (Option-cases (t.held s (key new))) [
      | inl e ↦ rw (same, held, e) (ap some (inserted (t.default_now s)))
      | inr (row, e) ↦ rw (same, held, e) (ap some (changed row (t.held_key s (key new) row e)))
    ]

-- After a save that Postgres confirmed, a campaign that is found under the same id is the saved
-- one, whether the row was new or already there.
pub find_campaign-save_campaign :
    (campaigns : Table CampaignColumns (λ c. c.id)) (c : CampaignEntity) (now : ℕ)
    (s : campaigns.Store) (found : Option CampaignEntity)
    → (save_campaign campaigns c now s).0 ≡ ok tt
    → (find_campaign campaigns c.id (save_campaign campaigns c now s).1).0 ≡ ok found
    → found ≡ some c
unfolding find_campaign save_campaign campaign_to_domain campaign_to_persistence campaign_set
find_campaign-save_campaign campaigns c now s found saved e =
    let (rows, selected, mapped) = answer-eq-ok (first_of campaign_to_domain) _ found e in
    mapped
    ∙ found_after_save campaigns campaign_to_domain (campaign_to_persistence c) (campaign_set c now)
        c s rows (λ at. refl) (λ row h. ap (λ id. record c { id = id }) h) (λ row. refl) saved
        selected

-- So is a recipient.
pub find_recipient-save_recipient :
    (recipients : Table RecipientColumns (λ r. r.id)) (r : RecipientEntity) (now : ℕ)
    (s : recipients.Store) (found : Option RecipientEntity)
    → (save_recipient recipients r now s).0 ≡ ok tt
    → (find_recipient recipients r.id (save_recipient recipients r now s).1).0 ≡ ok found
    → found ≡ some r
unfolding find_recipient save_recipient recipient_to_domain recipient_to_persistence recipient_set
find_recipient-save_recipient recipients r now s found saved e =
    let (rows, selected, mapped) = answer-eq-ok (first_of recipient_to_domain) _ found e in
    mapped
    ∙ found_after_save recipients recipient_to_domain (recipient_to_persistence r)
        (recipient_set r now) r s rows (λ at. refl) (λ row h. ap (λ id. record r { id = id }) h)
        (λ row. refl) saved selected

-- So is a task of the parser.
pub find_task-save_task :
    (tasks : Table ParserTaskColumns (λ t. t.id)) (t : ParserTask) (now : ℕ) (s : tasks.Store)
    (found : Option ParserTask)
    → (save_task tasks t now s).0 ≡ ok tt
    → (find_task tasks t.id (save_task tasks t now s).1).0 ≡ ok found
    → found ≡ some t
unfolding find_task save_task task_to_domain task_to_persistence task_set
find_task-save_task tasks t now s found saved e =
    let (rows, selected, mapped) = answer-eq-ok (first_of task_to_domain) _ found e in
    mapped
    ∙ found_after_save tasks task_to_domain (task_to_persistence t) (task_set t now) t s rows
        (λ at. refl) (λ row h. ap (λ id. record t { id = id }) h) (λ row. refl) saved selected

-- After a confirmed save of a user the row under its id stands for the saved user. It has the
-- password hash and the creation time that the row had before, or no hash at all if it is new.
pub held-save_user :
    (users : Table UserColumns (λ u. u.id)) (u : User) (now : ℕ) (s : users.Store)
    → (save_user users u now s).0 ≡ ok tt
    → (row : Row UserColumns) × (users.held (save_user users u now s).1 u.id ≡ some row)
      × (user_to_domain row ≡ u)
      × (((users.held s u.id ≡ none) × (row.columns.password_hash ≡ ""))
          ⊎ ((old : Row UserColumns) × (users.held s u.id ≡ some old)
              × (row.columns.password_hash ≡ old.columns.password_hash)
              × (row.created_at ≡ old.created_at)
              × (row.updated_at ≡ now)))
unfolding save_user user_to_domain user_to_persistence user_set
held-save_user users u now s saved =
    let held = users.upsert_ok (user_to_persistence u "") (user_set u now) s (λ row. refl) saved in
    elim (Option-cases (users.held s u.id)) [
      | inl e ↦ (
        record {
          columns = user_to_persistence u "";
          created_at = users.default_now s;
          updated_at = users.default_now s;
        },
        held ∙ rw e refl,
        refl,
        inl (e, refl),
      )
      | inr (old, e) ↦ (
        user_set u now old,
        held ∙ rw e refl,
        ap (λ id. record u { id = id }) (users.held_key s u.id old e),
        inr (old, e, refl, refl, refl),
      )
    ]
