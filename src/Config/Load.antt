-- ===== src/Config/Load.antt =====
-- packages/foundation/src/external/config: `loadConfig` with its cache, and `createConfigModule`.
-- A schema is known by its reference, a number, and `schema_at` is the schema there. The cache is
-- a list of what was set, the last first.
use email_platform_services.Common.{
  ℕ, ◌==◌, String, Option, none, some, get_or, List, [], ◌∷◌, map, Dict, Outcome, ok, throws,
  if◌then◌else◌,
}
use email_platform_services.Config.Shapes.{Value, Schema, Zod}

-- The module-level cache, and `process.env`.
pub record Process (N : Type 0) : Type 0 where
  pub cache : List (ℕ × Dict (Value N))
  pub env : Dict String

-- `cache.get(schema)`; a parsed object is never `undefined`.
unfoldable pub cached_at : {C : Type 0} → ℕ → List (ℕ × C) → Option C
cached_at schema [] = none
cached_at schema ((own, config) ∷ cache) =
    if own == schema then some config else cached_at schema cache

-- What a narrow port hands on: an object with some of the properties, or with `grpcUrls` in it.
pub data Slice (N : Type 0) : Type 0 where
  plain : Dict (Option (Value N)) → Slice N
  with_grpc_urls : Dict (Option (Value N)) → Dict (Option (Value N)) → Slice N

pub record NarrowPort (N : Type 0) : Type 0 where
  pub port : String
  pub slice : Dict (Value N) → Slice N

-- `inject` is the token whose value `use_factory` is called with.
pub data Provider (N : Type 0) : Type 0 where
  use_value : (provide : String) → Dict (Value N) → Provider N
  use_factory : (provide inject : String) → (Dict (Value N) → Slice N) → Provider N

pub record DynamicModule (N : Type 0) : Type 0 where
  pub providers : List (Provider N)
  pub exports : List String

module _ (zod : Zod) (schema_at : ℕ → Schema zod.Number) where
  unfoldable pub load_config :
      ℕ → Process zod.Number → Outcome (Dict (Value zod.Number)) × Process zod.Number
  unfolding cached_at
  load_config schema p = elim (cached_at schema p.cache) [
    | some config ↦ (ok config, p)
    | none ↦ elim (zod.parse (schema_at schema) p.env) [
      | ok config ↦ (ok config, record p { cache = (schema, config) ∷ p.cache })
      | throws err ↦ (throws err, p)
    ]
  ]

  unfoldable pub reset_config_cache : Process zod.Number → Process zod.Number
  reset_config_cache p = record p { cache = [] }

  unfoldable pub create_config_module :
      ℕ
      → String
      → Option (List (NarrowPort zod.Number))
      → Process zod.Number
      → Outcome (DynamicModule zod.Number) × Process zod.Number
  unfolding load_config
  create_config_module schema token narrow_ports p =
      let (loaded, q) = load_config schema p in
      elim loaded [
        | throws err ↦ (throws err, q)
        | ok config ↦ (
          ok (record {
            providers =
                use_value token config
                ∷ map (λ n. use_factory n.port token n.slice) (get_or narrow_ports []);
            exports = token ∷ map (λ n. n.port) (get_or narrow_ports []);
          }),
          q,
        )
      ]
