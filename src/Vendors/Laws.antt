-- ===== src/Vendors/Laws.antt =====
-- How often the vendors' APIs are called.
use email_platform_services.Common.{ℕ, ◌+◌, ◌≤◌, String, [], Dict, Outcome}
use email_platform_services.Http.Types.{get, post, CbOptions}
use email_platform_services.Http.Retry.{Doubles, is_idempotent}
use email_platform_services.Http.Breaker.{Opossum, Shared}
use email_platform_services.Http.Executor.{Response, Host, Endpoint}
use email_platform_services.Http.Client.{get_request, post_request, opts_or_empty}
use email_platform_services.Http.Client.Laws.{CountsFetches, request-fetches-le}
use email_platform_services.Vendors.{
  LookupAppRequest, with_auth, cloudfn_headers, appstorespy_headers, send_message, send_email,
  get_app_metadata,
}

module _ (lib : Opossum) (show : ℕ → String) (cb : CbOptions) {W J : Type 0}
    (host : Host (Shared lib.Breaker W)) (endpoint : Endpoint) (doubles : Doubles) (random : ℕ → ℕ)
    (json : Response → Outcome J) (fetches : W → ℕ) (c : CountsFetches host fetches) where
  -- A Telegram message and an e-mail are each sent with at most one fetch, so never twice by this
  -- client, while the metadata of an app is asked for up to three times. (No other call overlaps.)
  pub sends_once :
      (bot_token api_key body : String) (encode : Dict String → String) (req : LookupAppRequest)
      (s : Shared lib.Breaker W)
      → (fetches
            (send_message lib show cb host endpoint doubles random json bot_token body s).1.world
          ≤ fetches s.world + 1)
        × (fetches (send_email lib show cb host endpoint doubles random json api_key body s).1.world
            ≤ fetches s.world + 1)
        × (fetches
              (get_app_metadata lib show cb host endpoint doubles random json encode api_key req
                s).1.world
            ≤ fetches s.world + 3)
  unfolding send_message send_email get_app_metadata post_request get_request opts_or_empty
      is_idempotent
  sends_once bot_token api_key body encode req s = (
    request-fetches-le lib show cb host (with_auth [] endpoint) doubles random json post _ _ _
        fetches c s,
    request-fetches-le lib show cb host (with_auth (cloudfn_headers api_key) endpoint) doubles
        random json post _ _ _ fetches c s,
    request-fetches-le lib show cb host (with_auth (appstorespy_headers api_key) endpoint) doubles
        random json get _ _ _ fetches c s,
  )
