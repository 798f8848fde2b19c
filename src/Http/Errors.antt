-- ===== src/Http/Errors.antt =====
-- packages/foundation/src/external/http/errors: the error classes, the three mappers and the
-- normaliser that applies the first mapper that matches.
pub mod Laws
use email_platform_services.Common.{
  ℕ, String, Bool, true, false, not, ◌||◌, Option, none, some, List, [], ◌∷◌, String, str_eq,
  if◌then◌else◌, NativeError, Thrown, http_error, timeout_error, network_error, circuit_open_error,
  native_error, not_error, undefined, plain_error,
}

-- The discriminator of an `HttpClientError`; `none` for every other value.
pub data HttpClientErrorKind : Type 0 where
  http timeout network circuit_open : HttpClientErrorKind

unfoldable pub kind : Thrown → Option HttpClientErrorKind
kind (http_error status url) = some http
kind (timeout_error url timeout_ms) = some timeout
kind (network_error url cause) = some network
kind (circuit_open_error api) = some circuit_open
kind _ = none

-- `err instanceof HttpClientError`.
unfoldable pub is_http_client_error : Thrown → Bool
unfolding kind
is_http_client_error err = elim (kind err) [ none ↦ false | some k ↦ true ]

-- `err.name`, for an `Error`.
unfoldable pub error_name : Thrown → Option String
error_name (http_error status url) = some "HttpError"
error_name (timeout_error url timeout_ms) = some "TimeoutError"
error_name (network_error url cause) = some "NetworkError"
error_name (circuit_open_error api) = some "CircuitOpenError"
error_name (native_error e) = some e.name
error_name (not_error text) = none
error_name undefined = none

-- `err instanceof Error`.
unfoldable pub is_error : Thrown → Bool
unfolding error_name
is_error err = elim (error_name err) [ none ↦ false | some name ↦ true ]

-- `String(err)` of a value that is no `Error`; no other value is converted.
unfoldable pub to_text : Thrown → String
to_text (not_error text) = text
to_text undefined = "undefined"
to_text _ = ""

pub record ErrorContext : Type 0 where
  pub url : String
  pub timeout_ms : ℕ

pub record ErrorMapper : Type 0 where
  pub matches : Thrown → Bool
  pub apply : Thrown → ErrorContext → Thrown

is_timeout_name : Option String → Bool
is_timeout_name none = false
is_timeout_name (some name) = str_eq name "TimeoutError" || str_eq name "AbortError"

unfoldable pub timeout_matches : Thrown → Bool
unfolding is_timeout_name error_name
timeout_matches err = is_timeout_name (error_name err)

-- `err instanceof TypeError && 'cause' in err`.
unfoldable pub network_matches : Thrown → Bool
network_matches (native_error e) =
    if e.is_type_error then elim e.cause [ none ↦ false | some c ↦ true ] else false
network_matches _ = false

-- `(err as Error).cause`.
unfoldable pub cause_of : Thrown → Option String
cause_of (native_error e) = e.cause
cause_of (network_error url cause) = cause
cause_of _ = none

unfoldable pub timeout_error_mapper : ErrorMapper
unfolding timeout_matches
timeout_error_mapper = record {
  matches = timeout_matches;
  apply = λ err ctx. timeout_error ctx.url ctx.timeout_ms;
}

unfoldable pub network_error_mapper : ErrorMapper
unfolding network_matches cause_of
network_error_mapper = record {
  matches = network_matches;
  apply = λ err ctx. network_error ctx.url (cause_of err);
}

unfoldable pub fallback_error_mapper : ErrorMapper
unfolding is_error to_text
fallback_error_mapper = record {
  matches = λ err. not (is_error err);
  apply = λ err ctx. plain_error (to_text err);
}

-- `this.mappers.find((m) => m.matches(err))`.
unfoldable pub find_mapper : List ErrorMapper → Thrown → Option ErrorMapper
find_mapper [] err = none
find_mapper (m ∷ ms) err = if m.matches err then some m else find_mapper ms err

unfoldable pub normalize : List ErrorMapper → Thrown → ErrorContext → Thrown
unfolding find_mapper is_error to_text
normalize mappers err ctx = elim (find_mapper mappers err) [
  | none ↦ if is_error err then err else plain_error (to_text err)
  | some mapper ↦ mapper.apply err ctx
]

-- The chain that `httpClientProvider` builds.
unfoldable pub default_mappers : List ErrorMapper
unfolding timeout_error_mapper network_error_mapper fallback_error_mapper
default_mappers = timeout_error_mapper ∷ network_error_mapper ∷ fallback_error_mapper ∷ []
