-- ===== src/Vendors.antt =====
-- The clients of third-party APIs over the shared HTTP client:
-- apps/notifier/src/infrastructure/outbound/http-clients/telegram,
-- apps/sender/src/infrastructure/outbound/http-clients/cloud-functions and
-- apps/parser/src/infrastructure/outbound/http-clients/appstorespy. `URLSearchParams` is the
-- parameter `encode`.
pub mod Laws
pub mod Modules
use Prim.Native.String.{◌++◌ as append}
use email_platform_services.Http.Retry.{Doubles}
use email_platform_services.Common.{
  ℕ, String, Option, none, some, List, [], ◌∷◌, Dict, insert, Outcome,
}
use email_platform_services.Http.Types.{CbOptions}
use email_platform_services.Http.Breaker.{Opossum, Shared}
use email_platform_services.Http.Executor.{Response, Host, Endpoint}
use email_platform_services.Http.Client.{get_request, post_request}

pub record LookupAppRequest : Type 0 where
  pub app_id : String
  pub country : Option String

-- The endpoint of a client with these headers from `buildAuthHeaders`.
unfoldable pub with_auth : Dict String → Endpoint → Endpoint
with_auth headers endpoint = record endpoint { auth_headers = headers }

unfoldable pub cloudfn_headers : String → Dict String
cloudfn_headers api_key = ("Authorization", append "Bearer " api_key) ∷ []

unfoldable pub appstorespy_headers : String → Dict String
appstorespy_headers api_key = ("API-KEY", api_key) ∷ []

unfoldable pub lookup_params : LookupAppRequest → Dict String
lookup_params req = elim req.country [
  | none ↦ ("appId", req.app_id) ∷ []
  | some country ↦ insert "country" country (("appId", req.app_id) ∷ [])
]

module _ (lib : Opossum) (show : ℕ → String) (cb : CbOptions) {W J : Type 0}
    (host : Host (Shared lib.Breaker W)) (endpoint : Endpoint) (doubles : Doubles) (random : ℕ → ℕ)
    (json : Response → Outcome J) where
  -- `TelegramClient.sendMessage`, with the text of the request's body.
  unfoldable pub send_message :
      String → String → Shared lib.Breaker W → Outcome J × Shared lib.Breaker W
  unfolding with_auth
  send_message bot_token body s =
      post_request lib show cb host (with_auth [] endpoint) doubles random json
        (append "/bot" (append bot_token "/sendMessage")) body none s

  -- `CloudFnClient.sendEmail`.
  unfoldable pub send_email :
      String → String → Shared lib.Breaker W → Outcome J × Shared lib.Breaker W
  unfolding with_auth cloudfn_headers
  send_email api_key body s =
      post_request lib show cb host (with_auth (cloudfn_headers api_key) endpoint) doubles random
        json "/sendEmail" body none s

  -- `AppStoreSpyClient.getAppMetadata`.
  unfoldable pub get_app_metadata :
      (Dict String → String)
      → String
      → LookupAppRequest
      → Shared lib.Breaker W
      → Outcome J × Shared lib.Breaker W
  unfolding with_auth appstorespy_headers lookup_params
  get_app_metadata encode api_key req s =
      get_request lib show cb host (with_auth (appstorespy_headers api_key) endpoint) doubles random
        json (append "/app/lookup?" (encode (lookup_params req))) none s
