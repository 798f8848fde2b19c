-- ===== src/Tests/Grpc.antt =====
-- Examples for the gRPC clients and the search for the proto files.
use Prim.Native.String.{◌++◌ as append}
use email_platform_services.Common.{
  ℕ, ◌<◌, ◌≡◌, ◌≢◌, refl, String, str_eq, true, false, some, List, [], ◌∷◌, if◌then◌else◌, arith,
  Bool-cases, inl, inr,
}
use package.text.Mathlib.TextEquality.{eq_iff}
use email_platform_services.Grpc.Protos.{Files, find_monorepo_root}
use email_platform_services.Grpc.Protos.Laws.{Found, find_monorepo_root-Found}

-- The files of a machine with the repository at /repo.
abbrev join : List String → String
join [] = ""
join (a ∷ []) = a
join (a ∷ b ∷ rest) =
    if str_eq b ".." then (if str_eq a "/repo/apps" then "/repo" else "/") else append a b

abbrev depth : String → ℕ
depth dir = if str_eq dir "/" then 0 else (if str_eq dir "/repo/apps" then 2 else 1)

one_two : 1 < 2
one_two = omega arith

zero_one : 0 < 1
zero_one = omega arith

up_depth : (dir : String) → true ≡ true → dir ≢ "/" → depth (join (dir ∷ ".." ∷ [])) < depth dir
up_depth dir absolute apart =
    let below : str_eq dir "/" ≡ false = ground (arith, eq_iff dir "/") in
    elim (Bool-cases (str_eq dir "/repo/apps")) [
      | inl apps ↦ rw (below, apps) one_two
      | inr others ↦ rw (below, others) zero_one
    ]

abbrev files : Files
files = record {
  join = join;
  is_absolute = λ dir. true;
  exists = λ file. str_eq file "/repopnpm-workspace.yaml";
  depth = depth;
  up_absolute = λ dir absolute. refl;
  up_depth = up_depth;
}

find_monorepo_root-Found_example :
    (root : String) × (find_monorepo_root files 3 "/repo/apps" ≡ some root)
    × Found files "/repo/apps" "/repo/apps" root
find_monorepo_root-Found_example = find_monorepo_root-Found files 3 "/repo/apps" refl (omega arith)
