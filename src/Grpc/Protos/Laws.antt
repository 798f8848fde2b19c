-- ===== src/Grpc/Protos/Laws.antt =====
-- Finding the root of the repository ends, and finds the nearest one.
use email_platform_services.Common.{
  ℕ, zero, suc, ◌≡◌, refl, ◌≢◌, ◌<◌, ◌⊎◌, inl, inr, String, str_eq, true, false, some, arith,
  Bool-cases,
}
use text.Mathlib.TextEquality.{eq_iff}
use email_platform_services.Grpc.Protos.{Files, up, has_workspace, search_up, find_monorepo_root}

module _ (files : Files) where
  at_root : (dir : String) → str_eq dir "/" ≡ true → dir ≡ "/"
  at_root dir e = ground (arith, eq_iff dir "/")

  not_root : (dir : String) → str_eq dir "/" ≡ false → dir ≢ "/"
  not_root dir e same = ground (arith, eq_iff dir "/")

  up_absolute :
      (dir : String) → files.is_absolute dir ≡ true → files.is_absolute (up files dir) ≡ true
  unfolding up
  up_absolute dir e = files.up_absolute dir e

  up_depth :
      (dir : String)
      → files.is_absolute dir ≡ true
      → dir ≢ "/"
      → files.depth (up files dir) < files.depth dir
  unfolding up
  up_depth dir e apart = files.up_depth dir e apart

  -- The directory `n` levels above.
  unfoldable pub above : ℕ → String → String
  unfolding up
  above zero dir = dir
  above (suc n) dir = above n (up files dir)

  -- The first `n` directories, from `dir` up, are not `/` and are not the root of a workspace.
  pub data Searched : String → ℕ → Type 0 where
    unmoved : (dir : String) → Searched dir zero
    passed :
        (dir : String) (n : ℕ)
        → dir ≢ "/"
        → has_workspace files dir ≡ false
        → Searched (up files dir) n
        → Searched dir (suc n)

  -- What the search gives: the directory after `n` levels without a workspace, which has one; or,
  -- where that directory is `/`, the start.
  abbrev pub Found : String → String → String → Type 0
  Found origin dir root =
      (n : ℕ) × Searched dir n
      × (((above n dir ≢ "/") × (has_workspace files (above n dir) ≡ true) × (root ≡ above n dir))
          ⊎ ((above n dir ≡ "/") × (root ≡ origin)))

  search_up-Found :
      (fuel : ℕ) (origin dir : String)
      → files.is_absolute dir ≡ true
      → files.depth dir < fuel
      → (root : String) × (search_up files fuel origin dir ≡ some root) × Found origin dir root
  unfolding search_up above
  search_up-Found zero origin dir absolute enough = ground arith
  search_up-Found (suc fuel) origin dir absolute enough = elim (Bool-cases (str_eq dir "/")) [
    | inl is_root ↦
        (origin, rw (is_root) refl, (zero, unmoved dir, inr (at_root dir is_root, refl)))
    | inr below ↦ elim (Bool-cases (has_workspace files dir)) [
      | inl has ↦
          (dir, rw (below, has) refl, (zero, unmoved dir, inl (not_root dir below, has, refl)))
      | inr lacks ↦
          let apart = not_root dir below in
          let nearer = up_depth dir absolute apart in
          let (root, gave, (n, searched, found)) =
            search_up-Found fuel origin (up files dir) (up_absolute dir absolute)
              (omega (arith, nearer, enough)) in
          (root, rw (below, lacks) gave, (suc n, passed dir n apart lacks searched, found))
    ]
  ]

  -- From an absolute directory the search ends, with as many rounds as the directory is deep and
  -- one more: with the nearest directory at or above the start that is not `/` and has a workspace
  -- file, or with the start where none has.
  pub find_monorepo_root-Found :
      (fuel : ℕ) (cwd : String)
      → files.is_absolute cwd ≡ true
      → files.depth cwd < fuel
      → (root : String) × (find_monorepo_root files fuel cwd ≡ some root) × Found cwd cwd root
  unfolding find_monorepo_root
  find_monorepo_root-Found fuel cwd = search_up-Found fuel cwd cwd
