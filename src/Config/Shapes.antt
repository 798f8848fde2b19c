-- ===== src/Config/Shapes.antt =====
-- The shapes of packages/config/src/infra and of the topology and external-api files of
-- packages/config/src/apps. A field is what zod is told of it; zod itself is `Zod`.
use email_platform_services.Common.{
  String, ◌≡◌, ◌≢◌, Bool, true, Option, some, List, [], ◌∷◌, Dict, lookup, str_eq, Outcome, ok,
}

pub data NumberCheck : Type 0 where
  positive int : NumberCheck

-- `z.coerce.number()` with its checks, `z.string().min(1)`, `z.string().url()`, `z.enum(...)` and
-- `z.string().transform(...)` to a Boolean.
pub data Field : Type 0 where
  coerce_number : (checks : List NumberCheck) → Field
  string_min_1 : Field
  string_url : Field
  enum : (values : List String) → Field
  string_transform : (transform : String → Bool) → Field

abbrev pub Shape : Type 0
Shape = Dict Field

-- A parsed value; a number is of zod's type.
pub data Value (N : Type 0) : Type 0 where
  text : String → Value N
  number : N → Value N
  flag : Bool → Value N

-- `z.object(shape)`, with the check that `.refine` adds.
pub record Schema (N : Type 0) : Type 0 where
  pub shape : Shape
  pub refinement : Dict (Value N) → Bool

-- What the code relies on of zod: a parsed object has the shape's keys, with what the field makes
-- of the variable, and satisfies the refinement.
pub record Zod : Type 1 where
  pub Number : Type 0
  pub nonzero : Number → Bool
  pub field : Field → Option String → Option (Value Number)
  pub parse : Schema Number → Dict String → Outcome (Dict (Value Number))
  pub field_min_1 :
      (raw : Option String) (v : Value Number)
      → field string_min_1 raw ≡ some v
      → (s : String) × (raw ≡ some s) × (v ≡ text s) × (s ≢ "")
  pub field_url :
      (raw : Option String) (v : Value Number)
      → field string_url raw ≡ some v
      → (s : String) × (raw ≡ some s) × (v ≡ text s)
  pub field_transform :
      (f : String → Bool) (raw : Option String) (v : Value Number)
      → field (string_transform f) raw ≡ some v
      → (s : String) × (raw ≡ some s) × (v ≡ flag (f s))
  pub parse_known :
      (schema : Schema Number) (env : Dict String) (config : Dict (Value Number)) (key : String)
      (rule : Field)
      → parse schema env ≡ ok config
      → lookup key schema.shape ≡ some rule
      → (v : Value Number) × (lookup key config ≡ some v) × (field rule (lookup key env) ≡ some v)
  pub parse_refined :
      (schema : Schema Number) (env : Dict String) (config : Dict (Value Number))
      → parse schema env ≡ ok config
      → schema.refinement config ≡ true

abbrev pub database_shape : Shape
database_shape = ("DATABASE_URL", string_url) ∷ []

abbrev pub rabbit_shape : Shape
rabbit_shape = ("RABBITMQ_URL", string_min_1) ∷ []

abbrev pub redis_shape : Shape
redis_shape = ("REDIS_URL", string_min_1) ∷ []

abbrev pub storage_shape : Shape
storage_shape =
    ("STORAGE_PROTOCOL", enum ("http" ∷ "https" ∷ []))
    ∷ ("STORAGE_ENDPOINT", string_min_1)
    ∷ ("STORAGE_PORT", coerce_number [])
    ∷ ("STORAGE_ACCESS_KEY", string_min_1)
    ∷ ("STORAGE_SECRET_KEY", string_min_1)
    ∷ ("STORAGE_REGION", string_min_1)
    ∷ ("STORAGE_PUBLIC_URL", string_url)
    ∷ ("STORAGE_MAX_UPLOAD_BYTES", coerce_number (int ∷ positive ∷ []))
    ∷ []

abbrev pub logging_shape : Shape
logging_shape =
    ("LOG_LEVEL", enum ("trace" ∷ "debug" ∷ "info" ∷ "warn" ∷ "error" ∷ "fatal" ∷ []))
    ∷ ("LOG_FORMAT", enum ("json" ∷ "pretty" ∷ []))
    ∷ []

abbrev pub grpc_shape : Shape
grpc_shape = ("GRPC_DEADLINE_MS", coerce_number (positive ∷ [])) ∷ ("PROTO_DIR", string_min_1) ∷ []

abbrev pub cors_shape : Shape
cors_shape =
    ("CORS_ORIGINS", string_min_1) ∷ ("CORS_STRICT", string_transform (λ v. str_eq v "true")) ∷ []

abbrev pub rate_limit_shape : Shape
rate_limit_shape =
    ("RATE_LIMIT_BURST_TTL", coerce_number (positive ∷ []))
    ∷ ("RATE_LIMIT_BURST_LIMIT", coerce_number (positive ∷ []))
    ∷ ("RATE_LIMIT_SUSTAINED_TTL", coerce_number (positive ∷ []))
    ∷ ("RATE_LIMIT_SUSTAINED_LIMIT", coerce_number (positive ∷ []))
    ∷ []

abbrev pub auth_topology : Shape
auth_topology =
    ("AUTH_GRPC_PORT", coerce_number (positive ∷ [])) ∷ ("AUTH_GRPC_URL", string_min_1) ∷ []

abbrev pub sender_topology : Shape
sender_topology =
    ("SENDER_GRPC_PORT", coerce_number (positive ∷ [])) ∷ ("SENDER_GRPC_URL", string_min_1) ∷ []

abbrev pub parser_topology : Shape
parser_topology =
    ("PARSER_GRPC_PORT", coerce_number (positive ∷ [])) ∷ ("PARSER_GRPC_URL", string_min_1) ∷ []

abbrev pub audience_topology : Shape
audience_topology =
    ("AUDIENCE_GRPC_PORT", coerce_number (positive ∷ [])) ∷ ("AUDIENCE_GRPC_URL", string_min_1) ∷ []

abbrev pub notifier_topology : Shape
notifier_topology =
    ("NOTIFIER_GRPC_PORT", coerce_number (positive ∷ [])) ∷ ("NOTIFIER_GRPC_URL", string_min_1) ∷ []

abbrev pub gateway_topology : Shape
gateway_topology = ("GATEWAY_PORT", coerce_number (positive ∷ [])) ∷ []

abbrev pub telegram_shape : Shape
telegram_shape = ("TELEGRAM_BOT_TOKEN", string_min_1) ∷ ("TELEGRAM_BASE_URL", string_url) ∷ []

abbrev pub cloudfn_shape : Shape
cloudfn_shape = ("CLOUDFN_API_KEY", string_min_1) ∷ ("CLOUDFN_BASE_URL", string_url) ∷ []

abbrev pub appstorespy_shape : Shape
appstorespy_shape =
    ("APPSTORESPY_API_KEY", string_min_1) ∷ ("APPSTORESPY_BASE_URL", string_url) ∷ []
