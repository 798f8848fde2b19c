-- ===== src/Wiring/Foundation.antt =====
-- The modules of packages/foundation: external/{cache,persistence,messaging,logging,config,grpc,http}
-- and the storage of external and internal. `upper_id` is the id of a service in capitals.
use Prim.Native.String.{◌++◌ as append}
use email_platform_services.Common.{String, true, false, Option, none, some, List, [], ◌∷◌, map}
use email_platform_services.Config.Load.{Provider, use_value, use_factory, DynamicModule}
use email_platform_services.Wiring.{Binding, ◌needs◌, Module, Modules, ◌and◌}
use Module.{declared, library}

abbrev pub alone : Modules
alone = Modules.none

-- `@Module({ imports, providers, controllers, exports })`.
abbrev pub module_of : String → Modules → List Binding → List Binding → List String → Module
module_of name imports providers controllers exports =
    declared name false imports providers controllers exports

-- The modules of @nestjs/terminus, nestjs-cls and nestjs-pino.
abbrev pub terminus_module : Module
terminus_module =
    library "TerminusModule" false alone [] ("HealthCheckService" ∷ "HealthIndicatorService" ∷ [])

abbrev pub cls_module : Module
cls_module = library "ClsModule" true alone [] ("ClsService" ∷ [])

abbrev pub pino_logger_module : Module
pino_logger_module =
    library "PinoLoggerModule" false alone ("LOGGING_CONFIG_PORT" ∷ []) ("PinoLogger" ∷ [])

abbrev pub cache_providers : List Binding
cache_providers =
    ("REDIS_CLIENT" needs ("CACHE_CONFIG_PORT" ∷ []))
    ∷ ("CACHE_SERVICE" needs ("REDIS_CLIENT" ∷ []))
    ∷ ("RedisHealthIndicator" needs ("HealthIndicatorService" ∷ "REDIS_CLIENT" ∷ []))
    ∷ ("CACHE_HEALTH" needs ("RedisHealthIndicator" ∷ []))
    ∷ ("RedisShutdownService" needs ("REDIS_CLIENT" ∷ []))
    ∷ []

abbrev pub cache_module : Module
cache_module =
    module_of "CacheModule" (terminus_module and alone) cache_providers []
      ("TerminusModule" ∷ "CACHE_SERVICE" ∷ "CACHE_HEALTH" ∷ "REDIS_CLIENT" ∷ [])

abbrev pub persistence_providers : List Binding
persistence_providers =
    ("PG_POOL" needs ("PERSISTENCE_CONFIG_PORT" ∷ []))
    ∷ ("DRIZZLE" needs ("PG_POOL" ∷ []))
    ∷ ("DrizzleShutdownService" needs ("PG_POOL" ∷ []))
    ∷ ("PostgresHealthIndicator" needs ("HealthIndicatorService" ∷ "PG_POOL" ∷ []))
    ∷ ("PERSISTENCE_HEALTH" needs ("PostgresHealthIndicator" ∷ []))
    ∷ []

abbrev pub persistence_module : Module
persistence_module =
    module_of "PersistenceModule" (terminus_module and alone) persistence_providers []
      ("TerminusModule" ∷ "DRIZZLE" ∷ "PERSISTENCE_HEALTH" ∷ [])

abbrev pub messaging_module : Module
messaging_module =
    module_of "MessagingModule" (terminus_module and alone)
      (("MessagingHealthIndicator" needs ("HealthIndicatorService" ∷ []))
        ∷ ("MESSAGING_HEALTH" needs ("MessagingHealthIndicator" ∷ []))
        ∷ [])
      [] ("TerminusModule" ∷ "MESSAGING_HEALTH" ∷ [])

abbrev pub s3_core_module : Module
s3_core_module =
    module_of "S3CoreModule" alone
      (("S3_CLIENT" needs ("STORAGE_CORE_CONFIG_PORT" ∷ []))
        ∷ ("S3ShutdownService" needs ("S3_CLIENT" ∷ []))
        ∷ [])
      [] ("S3_CLIENT" ∷ [])

abbrev pub for_bucket : String → String → Module
for_bucket token health_token =
    module_of "PrivateStorageModule" (terminus_module and s3_core_module and alone)
      ((token needs ("S3_CLIENT" ∷ []))
        ∷ (health_token needs ("HealthIndicatorService" ∷ "S3_CLIENT" ∷ []))
        ∷ [])
      [] ("TerminusModule" ∷ token ∷ health_token ∷ [])

abbrev namespace_binding : String → Binding
namespace_binding token = token needs ("S3_CLIENT" ∷ "PUBLIC_STORAGE_CONFIG_PORT" ∷ [])

abbrev namespace_module : List Binding → List String → Module
namespace_module providers exports =
    module_of "SharedNamespaceModule" (s3_core_module and terminus_module and alone) providers []
      exports

abbrev pub for_namespace : String → Option String → Module
for_namespace token none = namespace_module (namespace_binding token ∷ []) (token ∷ [])
for_namespace token (some health_token) =
    namespace_module
      (namespace_binding token
        ∷ (health_token needs ("HealthIndicatorService" ∷ "S3_CLIENT" ∷ []))
        ∷ [])
      (token ∷ health_token ∷ [])

abbrev pub logging_for_http_async : Module
logging_for_http_async =
    module_of "LoggingModule" (cls_module and pino_logger_module and alone)
      (("HttpTimingInterceptor" needs ("PinoLogger" ∷ []))
        ∷ ("APP_INTERCEPTOR" needs ("PinoLogger" ∷ []))
        ∷ [])
      [] ("ClsModule" ∷ "PinoLoggerModule" ∷ [])

abbrev pub logging_for_grpc_async : Module
logging_for_grpc_async =
    module_of "LoggingModule" (cls_module and pino_logger_module and alone)
      (("GrpcCorrelationInterceptor" needs ("PinoLogger" ∷ "ClsService" ∷ []))
        ∷ ("GrpcLoggingInterceptor" needs ("PinoLogger" ∷ []))
        ∷ ("APP_INTERCEPTOR" needs ("PinoLogger" ∷ "ClsService" ∷ []))
        ∷ ("APP_INTERCEPTOR" needs ("PinoLogger" ∷ []))
        ∷ ("APP_FILTER" needs ("PinoLogger" ∷ []))
        ∷ [])
      []
      ("ClsModule" ∷ "PinoLoggerModule" ∷ "GrpcCorrelationInterceptor" ∷ "GrpcLoggingInterceptor"
        ∷ [])

-- The tokens of `createConfigModule`, whatever the configuration is.
abbrev pub config_module : String → List String → Module
config_module token ports =
    declared "ConfigModuleHolder" true alone
      ((token needs []) ∷ map (λ port. port needs (token ∷ [])) ports) [] (token ∷ ports)

-- The module that `createConfigModule` returns, for the container.
unfoldable pub binding_of : {N : Type 0} → Provider N → Binding
binding_of (use_value provide config) = provide needs []
binding_of (use_factory provide inject slice) = provide needs (inject ∷ [])

unfoldable pub from_dynamic : {N : Type 0} → DynamicModule N → Module
unfolding binding_of
from_dynamic d = declared "ConfigModuleHolder" true alone (map binding_of d.providers) [] d.exports

-- `ClientsModule.registerAsync([{ name: grpcToken, ... }])` of @nestjs/microservices.
abbrev clients_module : String → Module
clients_module grpc_token =
    library "ClientsModule" false alone ("GRPC_CLIENT_CONFIG_PORT" ∷ []) (grpc_token ∷ [])

-- `{Svc}ClientModule.forRoot()`, with what `defineGrpcClient` returns.
abbrev pub grpc_client_module : String → String → Module
grpc_client_module name upper_id =
    let grpc_token = append upper_id "_CLIENT_GRPC" in
    let health_token = append upper_id "_GRPC_HEALTH" in
    let client_token = append upper_id "_GRPC_CLIENT" in
    module_of name (terminus_module and clients_module grpc_token and alone)
      ((client_token needs (grpc_token ∷ "GRPC_CLIENT_CONFIG_PORT" ∷ []))
        ∷ (health_token needs ("HealthIndicatorService" ∷ grpc_token ∷ []))
        ∷ [])
      [] (client_token ∷ health_token ∷ [])

-- The binding of `httpClientProvider`.
abbrev pub http_client_binding : String → String → Binding
http_client_binding token env_token = token needs (env_token ∷ "ClsService" ∷ [])
