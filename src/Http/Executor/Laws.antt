-- ===== src/Http/Executor/Laws.antt =====
-- One attempt: what it settles with, and that it writes one log line.
use email_platform_services.Common.{
  ℕ, ◌+◌, ◌≤◌, ◌≡◌, refl, ◌↔◌, ap, ◌∙◌, ◌≢◌, inl, inr, if◌then◌else◌, String, true, false, Option,
  some, arith, Outcome, ok, throws, Thrown, http_error, Outcome-cases, Bool-cases,
}
use email_platform_services.Http.Types.{HttpMethod, HttpCallOpts}
use email_platform_services.Http.Errors.{is_http_client_error, normalize}
use email_platform_services.Http.Retry.{is_retryable}
use email_platform_services.Http.Executor.{
  RequestInit, Response, Host, Endpoint, LogLine, full_url, final_init, LogStatus, success, error,
  timeout_of, on_catch, log_call, execute,
}

module _ {S : Type 0} (host : Host S) (e : Endpoint) (method : HttpMethod) (path : String)
    (init : RequestInit) (opts : HttpCallOpts) (s : S) where
  abbrev pub fetched : Outcome Response × S
  fetched =
      host.fetch (full_url host e method path init opts) (final_init host e method path init opts) s

  execute_fetched :
      (res : Response)
      → fetched.0 ≡ ok res
      → execute host e method path init opts s ≡ (
          let start = host.now s in
          let status = if res.is_ok then success else error in
          let logged =
            log_call host e method path init opts start (some res.status) status fetched.1 in
          if res.is_ok
          then (ok res, logged)
          else on_catch host e method path init opts start
              (http_error res.status (full_url host e method path init opts))
              logged)
  unfolding execute
  execute_fetched res f = rw (f, execute)

  execute_thrown :
      (err : Thrown)
      → fetched.0 ≡ throws err
      → execute host e method path init opts s
        ≡ on_catch host e method path init opts (host.now s) err fetched.1
  unfolding execute
  execute_thrown err f = rw (f, execute)

  on_catch-ne-ok :
      (start : ℕ) (err : Thrown) (t : S) (res : Response)
      → (on_catch host e method path init opts start err t).0 ≢ ok res
  unfolding on_catch
  on_catch-ne-ok start err t res = ground arith

  on_catch_http_error :
      (start : ℕ) (t : S) (status : ℕ) (url : String)
      → on_catch host e method path init opts start (http_error status url) t
        ≡ (throws (http_error status url), t)
  unfolding on_catch is_http_client_error
  on_catch_http_error start t status url = refl

  -- An attempt succeeds with a response exactly when `fetch` gives it and its status is a success.
  pub execute-eq-ok_iff :
      (res : Response)
      → ((execute host e method path init opts s).0 ≡ ok res)
        ↔ ((fetched.0 ≡ ok res) × (res.is_ok ≡ true))
  execute-eq-ok_iff res = elim (Outcome-cases fetched.0) [
    | inl (got, f) ↦ ground (
      arith,
      execute_fetched got f,
      on_catch_http_error (host.now s)
          (log_call host e method path init opts (host.now s) (some got.status) error fetched.1)
          got.status (full_url host e method path init opts),
    )
    | inr (err, f) ↦
        ground (arith, execute_thrown err f, on_catch-ne-ok (host.now s) err fetched.1 res)
  ]

  -- A response with another status is an `HttpError` with that status and the request's URL, which
  -- is worth another attempt exactly from 500 on.
  pub execute_bad_status :
      (res : Response)
      → fetched.0 ≡ ok res
      → res.is_ok ≡ false
      → (err : Thrown) × ((execute host e method path init opts s).0 ≡ throws err)
        × (err ≡ http_error res.status (full_url host e method path init opts))
        × ((is_retryable err ≡ true) ↔ (500 ≤ res.status))
  unfolding is_retryable
  execute_bad_status res f bad = (
    http_error res.status (full_url host e method path init opts),
    rw (execute_fetched res f, bad, on_catch_http_error) refl,
    refl,
    ground arith,
  )

  -- What `fetch` throws, an `HttpClientError` aside, is passed on as the mappers make it.
  pub execute_fetch_throws :
      (err : Thrown)
      → fetched.0 ≡ throws err
      → is_http_client_error err ≡ false
      → (execute host e method path init opts s).0
        ≡ throws (
            normalize e.mappers err (record {
              url = full_url host e method path init opts;
              timeout_ms = timeout_of host e method path init opts;
            }))
  unfolding on_catch
  execute_fetch_throws err f foreign = rw (execute_thrown err f, foreign)

  module _ (lines : S → ℕ)
      (counts : (l : LogLine) (t : S) → lines (host.emit l t) ≡ lines t + 1) where
    lines-log_call :
        (start : ℕ) (code : Option ℕ) (status : LogStatus) (t : S)
        → lines (log_call host e method path init opts start code status t) ≡ lines t + 1
    unfolding log_call
    lines-log_call start code status t = counts _ t

    -- Every attempt writes one log line, if `fetch` writes none and throws no `HttpClientError`.
    pub execute-lines :
        lines fetched.1 ≡ lines s
        → ((err : Thrown) → fetched.0 ≡ throws err → is_http_client_error err ≡ false)
        → lines (execute host e method path init opts s).1 ≡ lines s + 1
    unfolding on_catch
    execute-lines quiet foreign = elim (Outcome-cases fetched.0) [
      | inl (res, f) ↦ elim (Bool-cases res.is_ok) [
        | inl good ↦
            rw (execute_fetched res f, good) (lines-log_call _ _ _ _ ∙ ap (λ n. n + 1) quiet)
        | inr bad ↦
            rw (execute_fetched res f, bad, on_catch_http_error)
              (lines-log_call _ _ _ _ ∙ ap (λ n. n + 1) quiet)
      ]
      | inr (err, f) ↦
          rw (execute_thrown err f, foreign err f) (lines-log_call _ _ _ _ ∙ ap (λ n. n + 1) quiet)
    ]

  module _ {M : Type 0} (measure : S → M)
      (kept : (l : LogLine) (t : S) → measure (host.emit l t) ≡ measure t) where
    measure-log_call :
        (start : ℕ) (code : Option ℕ) (status : LogStatus) (t : S)
        → measure (log_call host e method path init opts start code status t) ≡ measure t
    unfolding log_call
    measure-log_call start code status t = kept _ t

    measure-on_catch :
        (start : ℕ) (err : Thrown) (t : S)
        → measure (on_catch host e method path init opts start err t).1 ≡ measure t
    unfolding on_catch
    measure-on_catch start err t = elim (Bool-cases (is_http_client_error err)) [
      | inl own ↦ rw own refl
      | inr foreign ↦ rw foreign (measure-log_call _ _ _ t)
    ]

    -- What logging leaves alone, an attempt changes only through its one call of `fetch`.
    pub measure-execute : measure (execute host e method path init opts s).1 ≡ measure fetched.1
    measure-execute = elim (Outcome-cases fetched.0) [
      | inr (err, f) ↦ rw (execute_thrown err f) (measure-on_catch _ _ _)
      | inl (res, f) ↦ elim (Bool-cases res.is_ok) [
        | inl good ↦ rw (execute_fetched res f, good) (measure-log_call _ _ _ _)
        | inr bad ↦
            rw (execute_fetched res f, bad) (measure-on_catch _ _ _ ∙ measure-log_call _ _ _ _)
      ]
    ]
