-- ===== src/Config/Schemas.antt =====
-- packages/config/src/apps/*/env.schema.ts: the schema of each app's environment, as object
-- spreads of the shapes.
use email_platform_services.Common.{
  String, Bool, true, false, not, ◌&&◌, Option, none, some, List, [], ◌∷◌, Dict, lookup, spread,
  str_eq,
}
use email_platform_services.Config.Shapes.{
  Shape, Value, text, number, flag, Schema, database_shape, rabbit_shape, redis_shape,
  storage_shape, logging_shape, grpc_shape, cors_shape, rate_limit_shape, auth_topology,
  sender_topology, parser_topology, audience_topology, notifier_topology, gateway_topology,
  telegram_shape, cloudfn_shape, appstorespy_shape,
}

-- `{ ...first, ...rest }`, from the left.
unfoldable pub spread_all : List Shape → Shape
unfolding spread
spread_all shapes = collect [] shapes
  where
    collect : Shape → List Shape → Shape
    collect object [] = object
    collect object (shape ∷ shapes) = collect (spread object shape) shapes

abbrev pub base_gateway_shape : Shape
base_gateway_shape = spread_all (
    gateway_topology ∷ auth_topology ∷ sender_topology ∷ parser_topology ∷ audience_topology
    ∷ notifier_topology ∷ logging_shape ∷ grpc_shape ∷ cors_shape ∷ rate_limit_shape ∷ redis_shape
    ∷ [])

module _ {N : Type 0} where
  abbrev pub unrefined : Shape → Schema N
  unrefined shape = record { shape = shape; refinement = λ config. true }

  abbrev pub auth_env : Schema N
  auth_env =
      unrefined (
        spread_all (auth_topology ∷ database_shape ∷ redis_shape ∷ logging_shape ∷ grpc_shape ∷ []))

  abbrev pub sender_env : Schema N
  sender_env = unrefined (
      spread_all (
        sender_topology ∷ audience_topology ∷ database_shape ∷ redis_shape ∷ logging_shape
        ∷ grpc_shape ∷ cloudfn_shape ∷ []))

  abbrev pub parser_env : Schema N
  parser_env = unrefined (
      spread_all (
        parser_topology ∷ notifier_topology ∷ database_shape ∷ storage_shape ∷ redis_shape
        ∷ logging_shape ∷ grpc_shape ∷ appstorespy_shape ∷ []))

  abbrev pub audience_env : Schema N
  audience_env = unrefined (
      spread_all (
        audience_topology ∷ parser_topology ∷ database_shape ∷ rabbit_shape ∷ redis_shape
        ∷ logging_shape ∷ grpc_shape ∷ []))

  abbrev pub notifier_env : Schema N
  notifier_env = unrefined (
      spread_all (
        notifier_topology ∷ rabbit_shape ∷ storage_shape ∷ redis_shape ∷ logging_shape ∷ grpc_shape
        ∷ telegram_shape ∷ []))

  -- The truth value of a property; `nonzero` is that of a number.
  unfoldable pub is_set : (N → Bool) → Option (Value N) → Bool
  is_set nonzero none = false
  is_set nonzero (some (text s)) = not (str_eq s "")
  is_set nonzero (some (number n)) = nonzero n
  is_set nonzero (some (flag b)) = b

  unfoldable pub is_text : String → Option (Value N) → Bool
  is_text s none = false
  is_text s (some (text t)) = str_eq t s
  is_text s (some (number n)) = false
  is_text s (some (flag b)) = false

  -- `!(data.CORS_STRICT && data.CORS_ORIGINS === '*')`.
  unfoldable pub cors_refinement : (N → Bool) → Dict (Value N) → Bool
  unfolding is_set is_text
  cors_refinement nonzero config =
      not
        (is_set nonzero (lookup "CORS_STRICT" config) && is_text "*" (lookup "CORS_ORIGINS" config))

  abbrev pub gateway_env : (N → Bool) → Schema N
  gateway_env nonzero = record { shape = base_gateway_shape; refinement = cors_refinement nonzero }
