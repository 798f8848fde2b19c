-- ===== src/Grpc/Protos.antt =====
-- packages/foundation/src/external/grpc/proto-resolver.ts and grpc-server.factory.ts. `join`,
-- `isAbsolute` and `existsSync` of node are parameters.
pub mod Laws
use Prim.Native.String.{◌++◌ as append}
use email_platform_services.Common.{
  ℕ, zero, suc, String, str_eq, Bool, true, Option, none, some, List, [], ◌∷◌, if◌then◌else◌, ◌≡◌,
  ◌≢◌, ◌<◌,
}

-- What the code relies on of `path` and `fs`: going up from an absolute path that is not the root
-- gives an absolute path that is nearer to the root.
pub record Files : Type 1 where
  pub join : List String → String
  pub is_absolute : String → Bool
  pub exists : String → Bool
  pub depth : String → ℕ
  pub up_absolute :
      (dir : String) → is_absolute dir ≡ true → is_absolute (join (dir ∷ ".." ∷ [])) ≡ true
  pub up_depth :
      (dir : String)
      → is_absolute dir ≡ true
      → dir ≢ "/"
      → depth (join (dir ∷ ".." ∷ [])) < depth dir

module _ (files : Files) where
  unfoldable pub up : String → String
  up dir = files.join (dir ∷ ".." ∷ [])

  unfoldable pub has_workspace : String → Bool
  has_workspace dir = files.exists (files.join (dir ∷ "pnpm-workspace.yaml" ∷ []))

  -- The loop, on fuel: `none` when there is not enough.
  unfoldable pub search_up : ℕ → String → String → Option String
  unfolding up has_workspace
  search_up zero start dir = none
  search_up (suc fuel) start dir =
      let above = search_up fuel start (up dir) in
      if str_eq dir "/" then some start else if has_workspace dir then some dir else above

  unfoldable pub find_monorepo_root : ℕ → String → Option String
  unfolding search_up
  find_monorepo_root fuel start = search_up fuel start start

  abbrev pub proto_file : String → String
  proto_file proto_name = append proto_name ".proto"

  -- `cwd` is `process.cwd()`.
  unfoldable pub resolve_proto_path : ℕ → String → String → String → Option String
  unfolding find_monorepo_root
  resolve_proto_path fuel cwd proto_name proto_dir =
      if files.is_absolute proto_dir
      then some (files.join (proto_dir ∷ proto_file proto_name ∷ []))
      else elim (find_monorepo_root fuel cwd) [
        | none ↦ none
        | some root ↦ some (files.join (root ∷ proto_dir ∷ proto_file proto_name ∷ []))
      ]

pub record ServerOptions : Type 0 where
  pub proto_package : String
  pub proto_path : String
  pub url : String
  pub health : List (String × String)

-- `show` is the text of a number.
unfoldable pub create_grpc_server_options :
    (ℕ → String) → (files : Files) → ℕ → String → String → ℕ → String → Option ServerOptions
unfolding resolve_proto_path
create_grpc_server_options show files fuel cwd proto_package grpc_port proto_dir =
    elim (resolve_proto_path files fuel cwd proto_package proto_dir) [
      | none ↦ none
      | some path ↦ some (record {
        proto_package = proto_package;
        proto_path = path;
        url = append "0.0.0.0:" (show grpc_port);
        health = ("", "SERVING") ∷ [];
      })
    ]
