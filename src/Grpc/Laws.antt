-- ===== src/Grpc/Laws.antt =====
-- What a client of a service reaches.
use email_platform_services.Common.{
  ◌≡◌, ◌≢◌, refl, ap, ◌∙◌, String, Option, none, some, Dict, lookup, insert, spread, ok,
}
use email_platform_services.Config.Shapes.{Value, text, Zod, string_min_1}
use email_platform_services.Config.Schemas.{spread_all}
use email_platform_services.Config.Services.{ServiceId, service, define_service}
use email_platform_services.Config.Apps.{App, pick, grpc_urls}
use email_platform_services.Config.Laws.{schema_of}
use email_platform_services.Grpc.Clients.{
  ClientModule, gateway_auth, gateway_sender, gateway_parser, gateway_audience, gateway_notifier,
  sender_audience, parser_notifier, audience_parser, define_grpc_client, url_of,
}

-- What `toUpperCase` makes of the services' identities.
pub record UpperCase : Type 0 where
  pub to_upper_case : String → String
  pub auth_upper : to_upper_case "auth" ≡ "AUTH"
  pub sender_upper : to_upper_case "sender" ≡ "SENDER"
  pub parser_upper : to_upper_case "parser" ≡ "PARSER"
  pub audience_upper : to_upper_case "audience" ≡ "AUDIENCE"
  pub notifier_upper : to_upper_case "notifier" ≡ "NOTIFIER"

module _ (zod : Zod) (upper : UpperCase) where
  -- The address that the client of a service finds in the app's narrow port.
  abbrev pub client_url : App → ServiceId → Dict (Value zod.Number) → Option (Value zod.Number)
  client_url a svc config =
      elim (define_grpc_client upper.to_upper_case (service upper.to_upper_case svc) "") [
        | none ↦ none
        | some build ↦ url_of build (pick (grpc_urls a) config)
      ]

  text_at :
      (a : App) (key : String) (env : Dict String) (config : Dict (Value zod.Number))
      → zod.parse (schema_of zod a) env ≡ ok config
      → lookup key (schema_of zod a).shape ≡ some string_min_1
      → (url : String) × (lookup key config ≡ some (text url)) × (url ≢ "")
  text_at a key env config parsed known =
      let (v, held, made) = zod.parse_known (schema_of zod a) env config key _ parsed known in
      let (url, read, is_text, filled) = zod.field_min_1 _ v made in
      (url, held ∙ ap some is_text, filled)

  -- Each app's client of another service finds an address that is not empty, when the app's
  -- environment parses.
  pub client_url_found :
      (a : App) (svc : ServiceId) (env : Dict String) (config : Dict (Value zod.Number))
      → ClientModule a svc
      → zod.parse (schema_of zod a) env ≡ ok config
      → (url : String) × (client_url a svc config ≡ some (text url)) × (url ≢ "")
  unfolding define_grpc_client url_of pick define_service lookup spread spread_all insert
  client_url_found _ _ env config gateway_auth parsed =
      let (url, held, filled) = text_at App.gateway "AUTH_GRPC_URL" env config parsed refl in
      (url, rw (upper.auth_upper, held) refl, filled)
  client_url_found _ _ env config gateway_sender parsed =
      let (url, held, filled) = text_at App.gateway "SENDER_GRPC_URL" env config parsed refl in
      (url, rw (upper.sender_upper, held) refl, filled)
  client_url_found _ _ env config gateway_parser parsed =
      let (url, held, filled) = text_at App.gateway "PARSER_GRPC_URL" env config parsed refl in
      (url, rw (upper.parser_upper, held) refl, filled)
  client_url_found _ _ env config gateway_audience parsed =
      let (url, held, filled) = text_at App.gateway "AUDIENCE_GRPC_URL" env config parsed refl in
      (url, rw (upper.audience_upper, held) refl, filled)
  client_url_found _ _ env config gateway_notifier parsed =
      let (url, held, filled) = text_at App.gateway "NOTIFIER_GRPC_URL" env config parsed refl in
      (url, rw (upper.notifier_upper, held) refl, filled)
  client_url_found _ _ env config sender_audience parsed =
      let (url, held, filled) = text_at App.sender "AUDIENCE_GRPC_URL" env config parsed refl in
      (url, rw (upper.audience_upper, held) refl, filled)
  client_url_found _ _ env config parser_notifier parsed =
      let (url, held, filled) = text_at App.parser "NOTIFIER_GRPC_URL" env config parsed refl in
      (url, rw (upper.notifier_upper, held) refl, filled)
  client_url_found _ _ env config audience_parser parsed =
      let (url, held, filled) = text_at App.audience "PARSER_GRPC_URL" env config parsed refl in
      (url, rw (upper.parser_upper, held) refl, filled)
