-- ===== src/Http/Executor.antt =====
-- packages/foundation/src/external/http/client/request-executor.ts and logger: one HTTP attempt,
-- with its log line. What the platform gives (clock, `fetch`, the log, the correlation id) is a
-- `Host` over the program's state; `fetch` may change all of it, so it stands for whatever other
-- calls do while this one waits.
pub mod Laws
pub mod Headers
use Prim.Native.String.{◌++◌ as append}
use email_platform_services.Common.{
  ℕ, String, Bool, true, false, Option, none, some, get_or, List, [], ◌∷◌, Dict, spread, ℤ, sub_ℕ,
  if◌then◌else◌, Outcome, ok, throws, Thrown, http_error,
}
use email_platform_services.Http.Types.{HttpMethod, HttpCallOpts}
use email_platform_services.Http.Errors.{ErrorMapper, is_http_client_error, normalize}

-- `signal` is the argument of `AbortSignal.timeout`.
pub record RequestInit : Type 0 where
  pub method : Option HttpMethod
  pub signal : Option ℕ
  pub headers : Option (Dict String)
  pub body : Option String

pub record Response : Type 0 where
  pub status : ℕ
  pub is_ok : Bool
  pub body : String

pub data LogStatus : Type 0 where
  success error : LogStatus

pub data Level : Type 0 where
  info warn error : Level

pub record HttpClientLogFields : Type 0 where
  pub api : String
  pub method : HttpMethod
  pub url : String
  pub duration_ms : ℤ
  pub status_code : Option ℕ
  pub status : LogStatus
  pub correlation_id : Option String

pub record LogLine : Type 0 where
  pub level : Level
  pub fields : HttpClientLogFields

pub record Host (S : Type 0) : Type 0 where
  pub now : S → ℕ
  pub fetch : String → RequestInit → S → Outcome Response × S
  pub emit : LogLine → S → S
  pub correlation_id : S → Option String

-- `fields.correlationId ?? this.cls.getId()`.
unfoldable pub enrich_id : Option String → Option String → Option String
enrich_id none id = id
enrich_id (some given) id = some given

-- `PinoHttpClientLoggerAdapter.call`, before the line is written.
unfoldable pub log_line : Option String → HttpClientLogFields → LogLine
unfolding enrich_id
log_line id fields = record {
  level = elim fields.status [ success ↦ info | error ↦ error ];
  fields = record fields { correlation_id = enrich_id fields.correlation_id id };
}

unfoldable pub merge_headers : Dict String → RequestInit → HttpCallOpts → Dict String
merge_headers auth_headers init opts =
    spread (spread auth_headers (get_or init.headers [])) (get_or opts.headers [])

pub record Endpoint : Type 0 where
  pub mappers : List ErrorMapper
  pub base_url : String
  pub auth_headers : Dict String
  pub default_timeout_ms : ℕ
  pub log_context : String

module _ {S : Type 0} (host : Host S) (e : Endpoint) (method : HttpMethod) (path : String)
    (init : RequestInit) (opts : HttpCallOpts) where
  unfoldable pub full_url : String
  full_url = append e.base_url path

  unfoldable pub timeout_of : ℕ
  timeout_of = get_or opts.timeout_ms e.default_timeout_ms

  unfoldable pub final_init : RequestInit
  final_init = record init {
    method = some method;
    signal = some timeout_of;
    headers = some (merge_headers e.auth_headers init opts);
  }

  -- `this.logger.call(...)`, with the clock as it stands.
  unfoldable pub log_call : ℕ → Option ℕ → LogStatus → S → S
  log_call start code status s =
      host.emit
        (log_line (host.correlation_id s) (record {
          api = e.log_context;
          method = method;
          url = full_url;
          duration_ms = sub_ℕ (host.now s) start;
          status_code = code;
          status = status;
          correlation_id = none;
        }))
        s

  unfoldable pub on_catch : ℕ → Thrown → S → Outcome Response × S
  on_catch start err s = if is_http_client_error err then (throws err, s) else (
    throws (normalize e.mappers err (record { url = full_url; timeout_ms = timeout_of })),
    log_call start none error s,
  )

  unfoldable pub execute : S → Outcome Response × S
  execute s =
      let start = host.now s in
      let (fetched, s') = host.fetch full_url final_init s in
      elim fetched [
        | throws err ↦ on_catch start err s'
        | ok res ↦
            let status = if res.is_ok then success else error in
            let logged = log_call start (some res.status) status s' in
            if res.is_ok
            then (ok res, logged)
            else on_catch start (http_error res.status full_url) logged
      ]
