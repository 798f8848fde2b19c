-- ===== src/Config/Laws.antt =====
-- What an app may rely on once its environment has been parsed.
use email_platform_services.Common.{
  both, both-first, both-second, ◌≡◌, ◌≢◌, refl, ap, ◌∙◌, String, str_eq, Bool, true, false, ◌&&◌,
  Option, none, some, List, [], ◌∷◌, All, Dict, lookup, spread, insert, ok,
}
use email_platform_services.Config.Shapes.{Shape, Field, Value, text, flag, Schema, Zod}
use email_platform_services.Config.Schemas.{spread_all, cors_refinement, is_set, is_text}
use email_platform_services.Config.Load.{Slice, plain, with_grpc_urls}
use email_platform_services.Config.Apps.{
  App, auth, sender, parser, audience, notifier, gateway, env_schema, pick, narrow_ports, grpc_urls,
  persistence_port, logging_port, cache_port, storage_core_port, public_storage_port,
  grpc_client_port,
}

unfoldable pub is_defined : {V : Type 0} → Option V → Bool
is_defined none = false
is_defined (some v) = true

-- No property of the object is `undefined`.
unfoldable pub all_defined : {V : Type 0} → Dict (Option V) → Bool
unfolding is_defined
all_defined [] = true
all_defined ((key, v) ∷ object) = is_defined v && all_defined object

unfoldable pub slice_defined : {N : Type 0} → Slice N → Bool
unfolding all_defined
slice_defined (plain object) = all_defined object
slice_defined (with_grpc_urls object urls) = all_defined object && all_defined urls

unfoldable has_all : List String → Shape → Bool
unfolding is_defined
has_all [] shape = true
has_all (key ∷ keys) shape = is_defined (lookup key shape) && has_all keys shape

cors_refinement-star :
    {N : Type 0} (nonzero : N → Bool) (config : Dict (Value N)) (origins : String)
    → cors_refinement nonzero config ≡ true
    → lookup "CORS_STRICT" config ≡ some (flag true)
    → lookup "CORS_ORIGINS" config ≡ some (text origins)
    → origins ≢ "*"
unfolding cors_refinement is_set is_text
cors_refinement-star nonzero config origins refined strict given star =
    let origins_star = given ∙ ap (λ o. some (text o)) star in
    let refused : cors_refinement nonzero config ≡ false =
      rw (cors_refinement, strict, origins_star) refl in
    cc

module _ (zod : Zod) where
  abbrev pub schema_of : App → Schema zod.Number
  schema_of a = env_schema zod.nonzero a

  known-defined :
      (schema : Schema zod.Number) (env : Dict String) (config : Dict (Value zod.Number))
      (key : String) (rule : Option Field)
      → zod.parse schema env ≡ ok config
      → lookup key schema.shape ≡ rule
      → is_defined rule ≡ true
      → is_defined (lookup key config) ≡ true
  unfolding is_defined
  known-defined schema env config key none parsed found e = cc
  known-defined schema env config key (some rule) parsed found e =
      let (v, held, made) = zod.parse_known schema env config key rule parsed found in
      rw (held) refl

  pick-defined :
      (keys : List String) (schema : Schema zod.Number) (env : Dict String)
      (config : Dict (Value zod.Number))
      → zod.parse schema env ≡ ok config
      → has_all keys schema.shape ≡ true
      → all_defined (pick keys config) ≡ true
  unfolding has_all all_defined pick
  pick-defined [] schema env config parsed e = refl
  pick-defined (key ∷ keys) schema env config parsed e =
      let first = known-defined schema env config key _ parsed refl in
      let rest = pick-defined keys schema env config parsed in
      both _ _ (first (both-first _ _ e)) (rest (both-second _ _ e))

  module _ (a : App) (env : Dict String) (config : Dict (Value zod.Number))
      (parsed : zod.parse (schema_of a) env ≡ ok config) where
    plain_defined :
        (keys : List String)
        → has_all keys (schema_of a).shape ≡ true
        → slice_defined (plain (pick keys config)) ≡ true
    unfolding slice_defined
    plain_defined keys e = pick-defined keys (schema_of a) env config parsed e

    grpc_defined :
        (keys urls : List String)
        → has_all keys (schema_of a).shape ≡ true
        → has_all urls (schema_of a).shape ≡ true
        → slice_defined (with_grpc_urls (pick keys config) (pick urls config)) ≡ true
    unfolding slice_defined
    grpc_defined keys urls e f =
        both _ _ (pick-defined keys (schema_of a) env config parsed e)
          (pick-defined urls (schema_of a) env config parsed f)

    persistence_defined :
        has_all ("DATABASE_URL" ∷ []) (schema_of a).shape ≡ true
        → slice_defined (persistence_port.slice config) ≡ true
    persistence_defined e = plain_defined _ e

    logging_defined :
        has_all ("LOG_LEVEL" ∷ "LOG_FORMAT" ∷ []) (schema_of a).shape ≡ true
        → slice_defined (logging_port.slice config) ≡ true
    logging_defined e = plain_defined _ e

    cache_defined :
        has_all ("REDIS_URL" ∷ []) (schema_of a).shape ≡ true
        → slice_defined (cache_port.slice config) ≡ true
    cache_defined e = plain_defined _ e

    storage_core_defined :
        has_all
            ("STORAGE_PROTOCOL" ∷ "STORAGE_ENDPOINT" ∷ "STORAGE_PORT" ∷ "STORAGE_REGION"
              ∷ "STORAGE_ACCESS_KEY" ∷ "STORAGE_SECRET_KEY" ∷ [])
            (schema_of a).shape
          ≡ true
        → slice_defined (storage_core_port.slice config) ≡ true
    storage_core_defined e = plain_defined _ e

    public_storage_defined :
        has_all ("STORAGE_PUBLIC_URL" ∷ "STORAGE_MAX_UPLOAD_BYTES" ∷ []) (schema_of a).shape ≡ true
        → slice_defined (public_storage_port.slice config) ≡ true
    public_storage_defined e = plain_defined _ e

    grpc_client_defined :
        has_all ("PROTO_DIR" ∷ "GRPC_DEADLINE_MS" ∷ []) (schema_of a).shape ≡ true
        → has_all (grpc_urls a) (schema_of a).shape ≡ true
        → slice_defined ((grpc_client_port (grpc_urls a)).slice config) ≡ true
    grpc_client_defined e f = grpc_defined _ _ e f

  -- When the environment of an app parses, no property that one of its narrow ports hands on is
  -- undefined: every key that a slice reads is a key of the app's own schema.
  pub narrow_ports_defined :
      (a : App) (env : Dict String) (config : Dict (Value zod.Number))
      → zod.parse (schema_of a) env ≡ ok config
      → All (λ n. slice_defined (n.slice config) ≡ true) (narrow_ports a)
  unfolding has_all lookup spread spread_all insert is_defined
  narrow_ports_defined auth env config parsed = (
    persistence_defined auth env config parsed refl,
    (logging_defined auth env config parsed refl, (cache_defined auth env config parsed refl, tt)),
  )
  narrow_ports_defined sender env config parsed = (
    persistence_defined sender env config parsed refl,
    (
      logging_defined sender env config parsed refl,
      (
        cache_defined sender env config parsed refl,
        (grpc_client_defined sender env config parsed refl refl, tt),
      ),
    ),
  )
  narrow_ports_defined parser env config parsed = (
    persistence_defined parser env config parsed refl,
    (
      logging_defined parser env config parsed refl,
      (
        cache_defined parser env config parsed refl,
        (
          storage_core_defined parser env config parsed refl,
          (
            public_storage_defined parser env config parsed refl,
            (grpc_client_defined parser env config parsed refl refl, tt),
          ),
        ),
      ),
    ),
  )
  narrow_ports_defined audience env config parsed = (
    persistence_defined audience env config parsed refl,
    (
      logging_defined audience env config parsed refl,
      (
        cache_defined audience env config parsed refl,
        (grpc_client_defined audience env config parsed refl refl, tt),
      ),
    ),
  )
  narrow_ports_defined notifier env config parsed = (
    logging_defined notifier env config parsed refl,
    (
      cache_defined notifier env config parsed refl,
      (
        storage_core_defined notifier env config parsed refl,
        (public_storage_defined notifier env config parsed refl, tt),
      ),
    ),
  )
  narrow_ports_defined gateway env config parsed = (
    logging_defined gateway env config parsed refl,
    (
      cache_defined gateway env config parsed refl,
      (grpc_client_defined gateway env config parsed refl refl, tt),
    ),
  )

  -- A gateway whose environment parses, with `CORS_STRICT` set to "true", is not open to all
  -- origins, and has a list of origins.
  pub gateway_cors :
      (env : Dict String) (config : Dict (Value zod.Number))
      → zod.parse (schema_of gateway) env ≡ ok config
      → lookup "CORS_STRICT" env ≡ some "true"
      → (origins : String) × (lookup "CORS_ORIGINS" env ≡ some origins)
        × (lookup "CORS_ORIGINS" config ≡ some (text origins))
        × (origins ≢ "*")
        × (origins ≢ "")
  unfolding lookup spread spread_all insert
  gateway_cors env config parsed strict =
      let (strict_v, held, made) =
        zod.parse_known (schema_of gateway) env config "CORS_STRICT" _ parsed refl in
      let (raw, given, flagged) = zod.field_transform _ _ strict_v made in
      let (origins_v, origins_held, origins_made) =
        zod.parse_known (schema_of gateway) env config "CORS_ORIGINS" _ parsed refl in
      let (origins, read, is_text, filled) = zod.field_min_1 _ origins_v origins_made in
      let raw_true : raw ≡ "true" = cc in
      let strict_true : lookup "CORS_STRICT" config ≡ some (flag true) =
        held ∙ ap some (flagged ∙ ap (λ t. flag (str_eq t "true")) raw_true) in
      let origins_text = origins_held ∙ ap some is_text in
      (
        origins,
        read,
        origins_text,
        cors_refinement-star zod.nonzero config origins
            (zod.parse_refined (schema_of gateway) env config parsed) strict_true origins_text,
        filled,
      )
