-- ===== src/Http/Client.antt =====
-- packages/foundation/src/external/http/client/abstract-http.client.ts: the request stack
-- breaker.fire(() => retry.run(() => executor.execute())) and the methods on top of it.
pub mod Laws
pub mod Runs
use email_platform_services.Common.{
  ℕ, String, Option, none, some, get_or, List, [], ◌∷◌, Dict, spread, Outcome, ok, throws, Thrown,
}
use email_platform_services.Http.Types.{
  HttpMethod, get, post, put, patch, delete, HttpCallOpts, CbOptions, CircuitState,
}
use email_platform_services.Http.Retry.{Doubles, Run, run, resolve_retry_policy}
use email_platform_services.Http.Breaker
use email_platform_services.Http.Breaker.{Opossum, Adapter, Shared, fire}
use email_platform_services.Http.Executor.{RequestInit, Response, Host, Endpoint, execute}

-- `opts ?? {}`.
unfoldable pub opts_or_empty : Option HttpCallOpts → HttpCallOpts
opts_or_empty none = record { timeout_ms = none; idempotent = none; retries = none; headers = none }
opts_or_empty (some opts) = opts

unfoldable pub build_init : Option HttpCallOpts → RequestInit
unfolding opts_or_empty
build_init opts = record {
  method = none;
  signal = none;
  headers = (opts_or_empty opts).headers;
  body = none;
}

-- The body is the text that `JSON.stringify` gives.
unfoldable pub build_json_init : String → Option HttpCallOpts → RequestInit
unfolding opts_or_empty
build_json_init body opts = record {
  method = none;
  signal = none;
  headers =
      some (
        spread (("Content-Type", "application/json") ∷ [])
          (get_or (opts_or_empty opts).headers []));
  body = some body;
}

-- A client: its breaker and retry executor are those of `httpClientProvider`, `unit` and `random`
-- the draws of `Math.random`, `json` is `res.json()`.
module _ (lib : Opossum) (show : ℕ → String) (cb : CbOptions) {W J : Type 0}
    (host : Host (Shared lib.Breaker W)) (endpoint : Endpoint) (doubles : Doubles) (random : ℕ → ℕ)
    (json : Response → Outcome J) where
  -- The action that a request fires.
  unfoldable pub retried :
      HttpMethod
      → String
      → RequestInit
      → HttpCallOpts
      → Shared lib.Breaker W
      → Outcome Response × Shared lib.Breaker W
  retried method path init opts s =
      let policy = resolve_retry_policy method opts in
      let r = run (execute host endpoint method path init opts) policy doubles random s in
      (r.outcome, r.state)

  -- The rest of `request` after the breaker: the body of a response, read by `json`.
  unfoldable pub respond :
      Outcome Response × Shared lib.Breaker W → Outcome J × Shared lib.Breaker W
  respond (throws err, s) = (throws err, s)
  respond (ok res, s) = (json res, s)

  unfoldable pub request :
      HttpMethod
      → String
      → RequestInit
      → HttpCallOpts
      → Shared lib.Breaker W
      → Outcome J × Shared lib.Breaker W
  unfolding respond
  request method path init opts s =
      respond (fire lib show cb endpoint.log_context (retried method path init opts) s)

  unfoldable pub get_request :
      String → Option HttpCallOpts → Shared lib.Breaker W → Outcome J × Shared lib.Breaker W
  get_request path opts = request get path (build_init opts) (opts_or_empty opts)

  unfoldable pub delete_request :
      String → Option HttpCallOpts → Shared lib.Breaker W → Outcome J × Shared lib.Breaker W
  delete_request path opts = request delete path (build_init opts) (opts_or_empty opts)

  unfoldable pub post_request :
      String
      → String
      → Option HttpCallOpts
      → Shared lib.Breaker W
      → Outcome J × Shared lib.Breaker W
  post_request path body opts = request post path (build_json_init body opts) (opts_or_empty opts)

  unfoldable pub put_request :
      String
      → String
      → Option HttpCallOpts
      → Shared lib.Breaker W
      → Outcome J × Shared lib.Breaker W
  put_request path body opts = request put path (build_json_init body opts) (opts_or_empty opts)

  unfoldable pub patch_request :
      String
      → String
      → Option HttpCallOpts
      → Shared lib.Breaker W
      → Outcome J × Shared lib.Breaker W
  patch_request path body opts = request patch path (build_json_init body opts) (opts_or_empty opts)

  unfoldable pub get_circuit_state : Shared lib.Breaker W → CircuitState
  get_circuit_state s = Breaker.state lib s.adapter
