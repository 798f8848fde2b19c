-- ===== src/Logging/Ids.antt =====
-- The correlation ids of logging.module.ts and grpc-metadata.helper.ts. `uuid` is what
-- `crypto.randomUUID()` draws at that call.
use email_platform_services.Common.{
  String, str_eq, Option, none, some, List, [], ◌∷◌, Dict, lookup, Bool, true, false, ◌≡◌, Outcome,
  ok, throws, Thrown, if◌then◌else◌,
}

abbrev pub correlation_header : String
correlation_header = "x-correlation-id"

-- `id || crypto.randomUUID()`.
unfoldable pub or_uuid : Option String → String → String
or_uuid none uuid = uuid
or_uuid (some id) uuid = if str_eq id "" then uuid else id

-- `idGenerator` of the HTTP modules, from the header of a request.
unfoldable pub http_id_generator : Dict String → String → String
unfolding or_uuid
http_id_generator headers uuid = or_uuid (lookup correlation_header headers) uuid

-- `genReqId` of the HTTP modules.
unfoldable pub gen_req_id : Dict String → String → String
unfolding or_uuid
gen_req_id headers uuid = or_uuid (lookup correlation_header headers) uuid

-- `Metadata` of @grpc/grpc-js. For the correlation header `set` takes a value of printable ASCII
-- characters, which then is the only one of the key, and throws on any other; `get` gives the values.
pub record GrpcMetadata : Type 1 where
  pub Metadata : Type 0
  pub empty : Metadata
  pub set : String → String → Metadata → Outcome Metadata
  pub get : String → Metadata → List String
  pub is_printable : String → Bool
  pub set_printable :
      (value : String) (metadata : Metadata)
      → is_printable value ≡ true
      → (after : Metadata) × (set correlation_header value metadata ≡ ok after)
        × (get correlation_header after ≡ value ∷ [])
  pub set_unprintable :
      (value : String) (metadata : Metadata)
      → is_printable value ≡ false
      → (err : Thrown) × (set correlation_header value metadata ≡ throws err)

unfoldable pub first_value : List String → Option String
first_value [] = none
first_value (value ∷ values) = some value

-- The context of an execution: of a gRPC call, with its metadata, or another.
pub data Context (M : Type 0) : Type 0 where
  rpc : M → Context M
  other : Context M

module _ (grpc : GrpcMetadata) where
  -- `idGenerator` of the gRPC modules.
  unfoldable pub grpc_id_generator : Context grpc.Metadata → String → String
  unfolding or_uuid first_value
  grpc_id_generator (rpc metadata) uuid =
      or_uuid (first_value (grpc.get correlation_header metadata)) uuid
  grpc_id_generator other uuid = uuid

  -- From the id of the current request, where there is one.
  unfoldable pub create_grpc_metadata : Option String → Outcome grpc.Metadata
  create_grpc_metadata none = ok grpc.empty
  create_grpc_metadata (some id) =
      if str_eq id "" then ok grpc.empty else grpc.set correlation_header id grpc.empty
