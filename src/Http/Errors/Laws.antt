-- ===== src/Http/Errors/Laws.antt =====
-- What the default chain of error mappers makes of each thrown value.
use email_platform_services.Common.{
  true, false, ◌≡◌, refl, ◌↔◌, ◌⊎◌, arith, Thrown, timeout_error, inl, inr, native_error,
  plain_error, timeout_error, network_error, http_error,
}
use email_platform_services.Http.Errors.{
  ErrorContext, is_error, is_http_client_error, to_text, timeout_matches, network_matches,
  normalize, default_mappers, cause_of,
}
use email_platform_services.Http.Retry.{is_retryable}

-- The four ways through the chain.
pub normalize-cases :
    (err : Thrown) (ctx : ErrorContext)
    → ((timeout_matches err ≡ true)
        × (normalize default_mappers err ctx ≡ timeout_error ctx.url ctx.timeout_ms))
      ⊎ ((timeout_matches err ≡ false)
          × (network_matches err ≡ true)
          × (normalize default_mappers err ctx ≡ network_error ctx.url (cause_of err)))
      ⊎ ((timeout_matches err ≡ false)
          × (network_matches err ≡ false)
          × (is_error err ≡ true)
          × (normalize default_mappers err ctx ≡ err))
      ⊎ ((is_error err ≡ false) × (normalize default_mappers err ctx ≡ plain_error (to_text err)))
unfolding normalize default_mappers
normalize-cases err ctx = ground arith

-- Whatever was thrown, the normalised value is an `Error`, and normalising it again in the same
-- context changes nothing.
pub normalize_stable :
    (err : Thrown) (ctx : ErrorContext)
    → (is_error (normalize default_mappers err ctx) ≡ true)
      × (normalize default_mappers (normalize default_mappers err ctx) ctx
          ≡ normalize default_mappers err ctx)
unfolding normalize default_mappers is_error timeout_matches network_matches
normalize_stable err ctx = elim (normalize-cases err ctx) [
  | inl (_, e) ↦ rw e (refl, refl)
  | inr (inl (_, _, e)) ↦ rw e (refl, refl)
  | inr (inr (inl (_, _, own, e))) ↦ rw e (own, e)
  | inr (inr (inr (_, e))) ↦ rw e (refl, refl)
]

-- Of the values that are no `HttpClientError` the chain makes those worth another attempt which
-- carry the name of a timeout, or are a `TypeError` with a cause; and no others.
pub is_retryable-normalize_iff :
    (err : Thrown) (ctx : ErrorContext)
    → is_http_client_error err ≡ false
    → (is_retryable (normalize default_mappers err ctx) ≡ true)
      ↔ ((timeout_matches err ≡ true) ⊎ (network_matches err ≡ true))
unfolding is_retryable is_http_client_error timeout_matches network_matches is_error
is_retryable-normalize_iff (native_error e) ctx foreign =
    ground (arith, normalize-cases (native_error e) ctx)
is_retryable-normalize_iff (http_error status url) ctx foreign = cc
is_retryable-normalize_iff err ctx foreign = ground (arith, normalize-cases err ctx)
