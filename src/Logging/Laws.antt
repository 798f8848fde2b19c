-- ===== src/Logging/Laws.antt =====
-- The ids of requests and calls, and the settings of the logging modules.
use email_platform_services.Common.{
  ◌≡◌, ◌≢◌, ◌↔◌, refl, sym, ◌∙◌, ap, String, str_eq, false, Option, none, some, Dict, lookup, true,
  Bool-cases, ◌⊎◌, inl, inr, ok, throws, Thrown, arith,
}
use text.Mathlib.TextEquality.{eq_iff}
use email_platform_services.Logging.Ids.{
  or_uuid, http_id_generator, gen_req_id, grpc_id_generator, Context, rpc, other, first_value,
  create_grpc_metadata, GrpcMetadata, correlation_header,
}
use email_platform_services.Logging.Module.{
  LoggingConfig, for_http, for_grpc, for_http_async, for_grpc_async,
}

or_uuid_filled : (id : Option String) (uuid : String) → uuid ≢ "" → or_uuid id uuid ≢ ""
unfolding or_uuid
or_uuid_filled none uuid drawn = drawn
or_uuid_filled (some id) uuid drawn = λ same. ground (arith, eq_iff id "")

grpc_id_filled :
    (grpc : GrpcMetadata) (context : Context grpc.Metadata) (uuid : String)
    → uuid ≢ ""
    → grpc_id_generator grpc context uuid ≢ ""
unfolding grpc_id_generator
grpc_id_filled grpc (rpc metadata) uuid drawn =
    or_uuid_filled (first_value (grpc.get correlation_header metadata)) uuid drawn
grpc_id_filled grpc other uuid drawn = drawn

not_empty : (id : String) → id ≢ "" → str_eq id "" ≡ false
not_empty id filled = ground (arith, eq_iff id "")

or_uuid-some : (id uuid : String) → id ≢ "" → or_uuid (some id) uuid ≡ id
unfolding or_uuid
or_uuid-some id uuid filled = rw (not_empty id filled) refl

-- The metadata made for an id carries it, or the id is not of printable characters and none is made.
abbrev pub CarriedOrRefused : GrpcMetadata → String → String → Type 0
CarriedOrRefused grpc id other_uuid =
    ((grpc.is_printable id ≡ true)
      × ((metadata : grpc.Metadata) × (create_grpc_metadata grpc (some id) ≡ ok metadata)
          × (grpc_id_generator grpc (rpc metadata) other_uuid ≡ id)))
    ⊎ ((grpc.is_printable id ≡ false)
        × ((err : Thrown) × (create_grpc_metadata grpc (some id) ≡ throws err)))

carried : (grpc : GrpcMetadata) (id uuid : String) → id ≢ "" → CarriedOrRefused grpc id uuid
unfolding grpc_id_generator create_grpc_metadata first_value
carried grpc id uuid filled = elim (Bool-cases (grpc.is_printable id)) [
  | inl printable ↦
      let (metadata, made, held) = grpc.set_printable id grpc.empty printable in
      inl (
        printable,
        (
          metadata,
          rw (not_empty id filled) made,
          ap (λ values. or_uuid (first_value values) uuid) held ∙ or_uuid-some id uuid filled,
        ),
      )
  | inr unprintable ↦
      let (err, thrown) = grpc.set_unprintable id grpc.empty unprintable in
      inr (unprintable, (err, rw (not_empty id filled) thrown))
]

-- When drawn ids are not empty, the id of a request or call is never empty, whatever header or
-- metadata it came with; and `createGrpcMetadata` for the id of a request either makes metadata from
-- which the id of the call is that same id, when it is of printable ASCII characters, or throws, when
-- it is not.
pub correlation_id_carried :
    (grpc : GrpcMetadata) (headers : Dict String) (context : Context grpc.Metadata)
    (uuid other_uuid : String)
    → uuid ≢ ""
    → (http_id_generator headers uuid ≢ "")
      × (grpc_id_generator grpc context uuid ≢ "")
      × CarriedOrRefused grpc (http_id_generator headers uuid) other_uuid
unfolding http_id_generator
correlation_id_carried grpc headers context uuid other_uuid drawn =
    let filled = or_uuid_filled (lookup correlation_header headers) uuid drawn in
    (filled, grpc_id_filled grpc context uuid drawn, carried grpc _ other_uuid filled)

agree-given :
    (id uuid other_uuid : String)
    → uuid ≢ other_uuid
    → or_uuid (some id) uuid ≡ or_uuid (some id) other_uuid
    → id ≢ ""
unfolding or_uuid
agree-given id uuid other_uuid apart same empty = apart (
    sym (ap (λ i. or_uuid (some i) uuid) empty)
    ∙ same
    ∙ ap (λ i. or_uuid (some i) other_uuid) empty)

given-agree :
    (id : Option String) (uuid other_uuid given : String)
    → id ≡ some given
    → given ≢ ""
    → or_uuid id uuid ≡ or_uuid id other_uuid
given-agree id uuid other_uuid given e filled =
    ap (λ o. or_uuid o uuid) e
    ∙ or_uuid-some given uuid filled
    ∙ sym (ap (λ o. or_uuid o other_uuid) e ∙ or_uuid-some given other_uuid filled)

agree-some :
    (id : Option String) (uuid other_uuid : String)
    → uuid ≢ other_uuid
    → or_uuid id uuid ≡ or_uuid id other_uuid
    → (given : String) × (id ≡ some given) × (given ≢ "")
unfolding or_uuid
agree-some none uuid other_uuid apart same = absurd (apart same)
agree-some (some id) uuid other_uuid apart same =
    (id, refl, agree-given id uuid other_uuid apart same)

-- When two drawn ids differ, the id that a request has in the context and the one that it has in
-- pino's log are the same just when the request came with a correlation header that is not empty:
-- without one, each is drawn by itself.
pub request_ids_iff :
    (headers : Dict String) (uuid other_uuid : String)
    → uuid ≢ other_uuid
    → (http_id_generator headers uuid ≡ gen_req_id headers other_uuid)
      ↔ ((given : String) × (lookup correlation_header headers ≡ some given) × (given ≢ ""))
unfolding http_id_generator gen_req_id
request_ids_iff headers uuid other_uuid apart = (
  λ same. agree-some (lookup correlation_header headers) uuid other_uuid apart same,
  λ given. given-agree _ uuid other_uuid given.0 given.1 given.2,
)

-- A module whose settings come from the app's logging port is, for those settings, the module that
-- is given them.
for_http_async-for_http :
    (grpc : GrpcMetadata) (instance_id service_name : String) (config : LoggingConfig)
    → let async = for_http_async grpc instance_id service_name in
      let sync = for_http grpc instance_id config.log_level config.log_format service_name in
      (async.pino config ≡ sync.pino tt)
      × (async.id_generator ≡ sync.id_generator)
      × (async.interceptors ≡ sync.interceptors)
      × (async.filters ≡ sync.filters)
unfolding for_http_async for_http
for_http_async-for_http grpc instance_id service_name config = (refl, refl, refl, refl)

for_grpc_async-for_grpc :
    (grpc : GrpcMetadata) (instance_id service_name : String) (config : LoggingConfig)
    → let async = for_grpc_async grpc instance_id service_name in
      let sync = for_grpc grpc instance_id config.log_level config.log_format service_name in
      (async.pino config ≡ sync.pino tt)
      × (async.id_generator ≡ sync.id_generator)
      × (async.interceptors ≡ sync.interceptors)
      × (async.filters ≡ sync.filters)
unfolding for_grpc_async for_grpc
for_grpc_async-for_grpc grpc instance_id service_name config = (refl, refl, refl, refl)
