-- ===== src/Tests/Services.antt =====
-- The ids of requests and calls.
use email_platform_services.Common.{
  ◌≡◌, ◌≢◌, refl, String, some, true, false, List, [], ◌∷◌, ok, throws, Thrown, lookup, Dict, arith,
}
use text.Mathlib.TextEquality.{eq_iff}
use email_platform_services.Logging.Ids.{
  http_id_generator, gen_req_id, grpc_id_generator, rpc, GrpcMetadata, correlation_header,
}
use email_platform_services.Logging.Laws.{CarriedOrRefused, correlation_id_carried, request_ids_iff}

abbrev headers : Dict String
headers = (correlation_header, "c-1") ∷ []

abbrev drawn : String
drawn = "u-1"

abbrev drawn_again : String
drawn_again = "u-2"

drawn_filled : drawn ≢ ""
drawn_filled same = ground (arith, eq_iff drawn "")

drawn_apart : drawn ≢ drawn_again
drawn_apart same = ground (arith, eq_iff drawn drawn_again)

never_unprintable :
    (value : String) → true ≡ false → (err : Thrown) × (ok (value ∷ []) ≡ throws err)
never_unprintable value e = ground arith

-- Metadata that holds the last value, where every text is printable.
abbrev last_metadata : GrpcMetadata
last_metadata = record {
  Metadata = List String;
  empty = [];
  set = λ key value metadata. ok (value ∷ []);
  get = λ key metadata. metadata;
  is_printable = λ value. true;
  set_printable = λ value metadata printable. (value ∷ [], refl, refl);
  set_unprintable = λ value metadata unprintable. never_unprintable value unprintable;
}

correlation_id_carried_example :
    (http_id_generator headers drawn ≢ "")
    × (grpc_id_generator last_metadata (rpc ("c-2" ∷ [])) drawn ≢ "")
    × CarriedOrRefused last_metadata (http_id_generator headers drawn) drawn_again
correlation_id_carried_example =
    correlation_id_carried last_metadata headers (rpc ("c-2" ∷ [])) drawn drawn_again drawn_filled

request_ids_iff_example :
    (given : String) × (lookup correlation_header headers ≡ some given) × (given ≢ "")
unfolding gen_req_id http_id_generator lookup
request_ids_iff_example = (request_ids_iff headers drawn drawn_again drawn_apart).0 refl
