-- ===== src/Tests/Rows.antt =====
-- Examples for the repositories.
use email_platform_services.Common.{
  ◌≡◌, ◌⊎◌, refl, String, Option, none, some, List, [], ◌∷◌, ok, arith, answer, inl, inr, str_eq,
  if◌then◌else◌, eq_iff, eq_refl, Option-cases,
}
use email_platform_services.Sender.Application.{CampaignEntity}
use email_platform_services.Persistence.{
  Row, Table, find_campaign, save_campaign, campaign_to_persistence, campaign_set,
  campaign_to_domain, first_of, User, UserColumns, user_to_domain, save_user,
}
use email_platform_services.Persistence.Laws.{find_campaign-save_campaign, held-save_user}

-- A table with room for one row.
module _ {C : Type 0} (key : C → String) where
  abbrev held_in : Option (Row C) → String → Option (Row C)
  held_in none id = none
  held_in (some row) id = if str_eq (key row.columns) id then some row else none

  abbrev placed : C → (Row C → Row C) → Option (Row C) → Row C
  placed new set none = record { columns = new; created_at = 5; updated_at = 5 }
  placed new set (some row) = set row

  abbrev rows_of : Option (Row C) → List (Row C)
  rows_of none = []
  rows_of (some row) = row ∷ []

  pub held_in-key :
      (s : Option (Row C)) (id : String) (row : Row C)
      → held_in s id ≡ some row
      → key row.columns ≡ id
  held_in-key none id row e = cc
  held_in-key (some r) id row e = ground (arith, eq_iff (key r.columns) id)

  pub rows_of-held :
      (held : Option (Row C)) (rows : List (Row C))
      → ok (rows_of held) ≡ ok rows
      → rows ≡ elim held [ none ↦ [] | some row ↦ row ∷ [] ]
  rows_of-held none rows e = cc
  rows_of-held (some row) rows e = cc

  pub held_in-placed :
      (new : C) (set : Row C → Row C) (s : Option (Row C))
      → ((row : Row C) → key (set row).columns ≡ key row.columns)
      → held_in (some (placed new set (held_in s (key new)))) (key new)
        ≡ some (elim (held_in s (key new)) [
          | none ↦ record { columns = new; created_at = 5; updated_at = 5 }
          | some row ↦ set row
        ])
  held_in-placed new set s keeps = elim (Option-cases (held_in s (key new))) [
    | inl e ↦ rw e (ground (arith, eq_refl (key new)))
    | inr (row, e) ↦
        rw (e, keeps row, held_in-key s (key new) row e) (ground (arith, eq_refl (key new)))
  ]

  abbrev one_row : Table C key
  one_row = record {
    Store = Option (Row C);
    held = held_in;
    default_now = λ s. 5;
    select = λ id s. (ok (rows_of (held_in s id)), s);
    upsert = λ new set s. (ok tt, some (placed new set (held_in s (key new))));
    held_key = held_in-key;
    select_ok = λ id s rows e. rows_of-held (held_in s id) rows e;
    upsert_ok = λ new set s keeps e. held_in-placed new set s keeps;
  }

abbrev launch : CampaignEntity
launch = record { id = "1"; name = "Launch"; status = "active" }

abbrev found : Option CampaignEntity
found = some launch

find_campaign-save_campaign_example : found ≡ some launch
unfolding find_campaign save_campaign campaign_to_persistence campaign_set campaign_to_domain
    first_of answer
find_campaign-save_campaign_example =
    find_campaign-save_campaign (one_row (λ c. c.id)) launch 9 none found refl refl

abbrev admin : User
admin = record { id = "1"; email = "a@b"; role = "admin"; organization = "o"; team = "t" }

abbrev stored : Option (Row UserColumns)
stored = some (record {
  columns = record {
    id = "1";
    email = "a@c";
    password_hash = "h";
    role = "user";
    organization = "o";
    team = "t";
  };
  created_at = 2;
  updated_at = 3;
})

held-save_user_example :
    let users = one_row {C = UserColumns} (λ u. u.id) in
    (row : Row UserColumns) × (users.held (save_user users admin 9 stored).1 "1" ≡ some row)
    × (user_to_domain row ≡ admin)
    × (((users.held stored "1" ≡ none) × (row.columns.password_hash ≡ ""))
        ⊎ ((old : Row UserColumns) × (users.held stored "1" ≡ some old)
            × (row.columns.password_hash ≡ old.columns.password_hash)
            × (row.created_at ≡ old.created_at)
            × (row.updated_at ≡ 9)))
unfolding save_user
held-save_user_example = held-save_user (one_row (λ u. u.id)) admin 9 stored refl
