-- ===== src/Vendors/Modules.antt =====
-- The modules of the vendors' clients: the options each gives to `httpClientProvider`, the app it
-- stands in, and the variable of its secret.
pub mod Laws
use email_platform_services.Common.{String, Option, none, some, Dict, lookup, Outcome, ok, throws}
use email_platform_services.Config.Shapes.{Value}
use email_platform_services.Config.Apps
use email_platform_services.Config.Apps.{App}
use email_platform_services.Http.Provider.{
  HttpClientProviderOpts, HttpClientDeps, ClientProvider, http_client_provider, build_deps,
}

pub data Vendor : Type 0 where
  telegram cloudfn appstorespy : Vendor

abbrev pub vendor_app : Vendor → App
vendor_app telegram = App.notifier
vendor_app cloudfn = App.sender
vendor_app appstorespy = App.parser

abbrev pub base_url_key : Vendor → String
base_url_key telegram = "TELEGRAM_BASE_URL"
base_url_key cloudfn = "CLOUDFN_BASE_URL"
base_url_key appstorespy = "APPSTORESPY_BASE_URL"

abbrev pub secret_key : Vendor → String
secret_key telegram = "TELEGRAM_BOT_TOKEN"
secret_key cloudfn = "CLOUDFN_API_KEY"
secret_key appstorespy = "APPSTORESPY_API_KEY"

abbrev pub telegram_opts : HttpClientProviderOpts
telegram_opts = record {
  token = "TELEGRAM_CLIENT";
  log_context = "TelegramClient";
  env_token = "NOTIFIER_CONFIG";
  base_url_env_key = some (base_url_key telegram);
  base_url_literal = none;
  timeout_ms = none;
  cb = none;
}

abbrev pub cloudfn_opts : HttpClientProviderOpts
cloudfn_opts = record {
  token = "CLOUDFN_CLIENT";
  log_context = "CloudFnClient";
  env_token = "SENDER_CONFIG";
  base_url_env_key = some (base_url_key cloudfn);
  base_url_literal = none;
  timeout_ms = none;
  cb = none;
}

abbrev pub appstorespy_opts : HttpClientProviderOpts
appstorespy_opts = record {
  token = "APPSTORESPY_CLIENT";
  log_context = "AppStoreSpyClient";
  env_token = "PARSER_CONFIG";
  base_url_env_key = some (base_url_key appstorespy);
  base_url_literal = none;
  timeout_ms = none;
  cb = none;
}

unfoldable pub vendor_opts : Vendor → HttpClientProviderOpts
vendor_opts telegram = telegram_opts
vendor_opts cloudfn = cloudfn_opts
vendor_opts appstorespy = appstorespy_opts

-- What the vendor's client is constructed with: the collaborators and the secret.
unfoldable pub vendor_client :
    {N : Type 0} → Vendor → Dict (Value N) → Outcome (HttpClientDeps N × Option (Value N))
unfolding http_client_provider vendor_opts
vendor_client {N} vendor env = elim (http_client_provider {N = N} (vendor_opts vendor)) [
  | throws err ↦ throws err
  | ok provider ↦ ok (provider.use_factory env, lookup (secret_key vendor) env)
]
