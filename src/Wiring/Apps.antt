-- ===== src/Wiring/Apps.antt =====
-- apps/*/src: the modules of the inbound queue, of the health checks and of the rate limit, and
-- the root module of each app.
use email_platform_services.Common.{String, ℕ, false, List, [], ◌∷◌, map}
use email_platform_services.Config.Apps.{App, narrow_ports}
use email_platform_services.Wiring.{Binding, ◌needs◌, Module, Modules, ◌and◌}
use email_platform_services.Wiring.Foundation.{
  module_of, alone, terminus_module, persistence_module, messaging_module, logging_for_http_async,
  logging_for_grpc_async, config_module,
}
use email_platform_services.Wiring.Inbound.{auth_grpc, audience_grpc, sender_grpc, parser_grpc}
use email_platform_services.Wiring.Outbound.{
  app_cache_module, auth_persistence, audience_persistence, sender_persistence, parser_persistence,
  parser_storage, notifier_storage, sender_http, parser_http, notifier_http, audience_grpc_clients,
  sender_grpc_clients, parser_grpc_clients, gateway_grpc_clients,
}
use Module.{library}
use App.{auth, sender, parser, audience, notifier, gateway}

abbrev rmq_module : Module
rmq_module =
    module_of "RmqModule" (notifier_http and alone)
      (("EventConsumer" needs ("HANDLE_EVENT_PORT" ∷ []))
        ∷ ("HANDLE_EVENT_PORT" needs ("NOTIFICATION_SENDER_PORT" ∷ []))
        ∷ ("NOTIFICATION_SENDER_PORT" needs ("TELEGRAM_CLIENT" ∷ []))
        ∷ [])
      [] ("EventConsumer" ∷ "HANDLE_EVENT_PORT" ∷ [])

-- A health module, with the indicators that its controller takes besides `HealthCheckService`.
abbrev health_module : Modules → List String → Module
health_module imports indicators =
    module_of "HealthModule" (terminus_module and imports) []
      (("HealthController" needs ("HealthCheckService" ∷ indicators)) ∷ []) []

-- The health module of auth, audience and sender.
abbrev database_health : Module
database_health =
    health_module (persistence_module and app_cache_module and alone)
      ("PERSISTENCE_HEALTH" ∷ "CACHE_HEALTH" ∷ [])

abbrev parser_health : Module
parser_health =
    health_module (persistence_module and parser_storage and app_cache_module and alone)
      ("PERSISTENCE_HEALTH" ∷ "PARSER_STORAGE_HEALTH" ∷ "CACHE_HEALTH" ∷ [])

abbrev notifier_health : Module
notifier_health =
    health_module (messaging_module and notifier_storage and app_cache_module and alone)
      ("MESSAGING_HEALTH" ∷ "PUBLIC_STORAGE_HEALTH" ∷ "CACHE_HEALTH" ∷ [])

abbrev gateway_health : Module
gateway_health = health_module (gateway_grpc_clients and app_cache_module and alone) (
    "AUTH_GRPC_HEALTH" ∷ "SENDER_GRPC_HEALTH" ∷ "PARSER_GRPC_HEALTH" ∷ "AUDIENCE_GRPC_HEALTH"
    ∷ "NOTIFIER_GRPC_HEALTH" ∷ "CACHE_HEALTH" ∷ [])

-- What `ThrottlerGuard`, a class of @nestjs/throttler, takes is of that library.
abbrev throttle_module : Module
throttle_module =
    module_of "ThrottleModule"
      (app_cache_module
        and library "ThrottlerModule" false (app_cache_module and alone)
            ("GATEWAY_CONFIG" ∷ "REDIS_CLIENT" ∷ []) []
        and alone)
      (("APP_GUARD" needs []) ∷ []) [] []

abbrev app_config : String → App → Module
app_config token app = config_module token (map (λ n. n.port) (narrow_ports {N = ℕ} app))

abbrev app_module : String → Modules → List Binding → Module
app_module name imports providers = module_of name imports providers [] []

abbrev auth_module : Module
auth_module =
    app_module "AuthModule"
      (app_config "AUTH_CONFIG" auth
        and database_health
        and logging_for_grpc_async
        and auth_grpc auth_persistence
        and alone)
      []

abbrev sender_module : Module
sender_module =
    app_module "SenderModule"
      (app_config "SENDER_CONFIG" sender
        and database_health
        and logging_for_grpc_async
        and sender_grpc_clients
        and sender_http
        and sender_grpc sender_persistence
        and alone)
      []

abbrev parser_module : Module
parser_module =
    app_module "ParserModule"
      (app_config "PARSER_CONFIG" parser
        and parser_health
        and logging_for_grpc_async
        and parser_grpc_clients
        and parser_http
        and parser_storage
        and parser_grpc parser_persistence
        and alone)
      []

abbrev audience_module : Module
audience_module =
    app_module "AudienceModule"
      (app_config "AUDIENCE_CONFIG" audience
        and database_health
        and logging_for_grpc_async
        and audience_grpc_clients
        and audience_grpc audience_persistence
        and alone)
      []

abbrev notifier_module : Module
notifier_module =
    app_module "NotifierModule"
      (app_config "NOTIFIER_CONFIG" notifier
        and notifier_health
        and logging_for_http_async
        and notifier_http
        and notifier_storage
        and rmq_module
        and alone)
      []

abbrev gateway_module : Module
gateway_module =
    app_module "GatewayModule"
      (app_config "GATEWAY_CONFIG" gateway
        and gateway_health
        and app_cache_module
        and throttle_module
        and logging_for_http_async
        and gateway_grpc_clients
        and alone)
      (("GrpcToHttpExceptionFilter" needs ("PinoLogger" ∷ "ClsService" ∷ [])) ∷ [])

abbrev pub root_module : App → Module
root_module auth = auth_module
root_module sender = sender_module
root_module parser = parser_module
root_module audience = audience_module
root_module notifier = notifier_module
root_module gateway = gateway_module
