-- ===== src/Logging/Module.antt =====
-- The modules of logging.module.ts and log-transport.ts: the options that pino is given, for HTTP and
-- for gRPC, with the level and format as arguments or from the app's logging port.
use email_platform_services.Common.{
  String, Bool, true, false, Option, none, some, List, [], ◌∷◌, Dict, ℕ,
}
use email_platform_services.Logging.Ids.{
  GrpcMetadata, Context, http_id_generator, gen_req_id, grpc_id_generator,
}

pub data LogFormat : Type 0 where
  json pretty : LogFormat

-- A transport: its target, with `colorize`.
pub record Transport : Type 0 where
  pub target : String
  pub colorize : Bool

unfoldable pub resolve_transport : LogFormat → Option Transport
resolve_transport json = none
resolve_transport pretty = some (record { target = "pino-pretty"; colorize = true })

pub record LoggingConfig : Type 0 where
  pub log_level : String
  pub log_format : LogFormat

pub record Request : Type 0 where
  pub id : String
  pub method : String
  pub url : String
  pub headers : Dict String

pub record SerializedRequest : Type 0 where
  pub id : String
  pub method : String
  pub url : String

pub record Serializers : Type 0 where
  pub req : Request → SerializedRequest
  pub res : ℕ → ℕ

-- `pinoHttp`.
pub record PinoOptions : Type 0 where
  pub level : String
  pub service : String
  pub instance_id : String
  pub gen_req_id : Option (Dict String → String → String)
  pub auto_logging : Option Bool
  pub transport : Option Transport
  pub serializers : Option Serializers

-- How the id of a request is made.
pub data IdGenerator (M : Type 0) : Type 0 where
  of_request : (Dict String → String → String) → IdGenerator M
  of_context : (Context M → String → String) → IdGenerator M

-- A module: pino's options, from what is injected.
pub record LoggingModule (M Injected : Type 0) : Type 0 where
  pub id_generator : IdGenerator M
  pub pino : Injected → PinoOptions
  pub interceptors : List String
  pub filters : List String

-- What the serializers keep: of a response, its status code.
unfoldable pub http_serializers : Serializers
http_serializers = record {
  req = λ req. record { id = req.id; method = req.method; url = req.url };
  res = λ status_code. status_code;
}

-- `instance_id` is the id that the process has drawn.
module _ (grpc : GrpcMetadata) (instance_id : String) where
  unfoldable pub http_options : String → LogFormat → String → PinoOptions
  unfolding resolve_transport gen_req_id http_serializers
  http_options log_level log_format service_name = record {
    level = log_level;
    service = service_name;
    instance_id = instance_id;
    gen_req_id = some gen_req_id;
    auto_logging = none;
    transport = resolve_transport log_format;
    serializers = some http_serializers;
  }

  unfoldable pub grpc_options : String → LogFormat → String → PinoOptions
  unfolding resolve_transport
  grpc_options log_level log_format service_name = record {
    level = log_level;
    service = service_name;
    instance_id = instance_id;
    gen_req_id = none;
    auto_logging = some false;
    transport = resolve_transport log_format;
    serializers = none;
  }

  unfoldable pub for_http : String → LogFormat → String → LoggingModule grpc.Metadata (Unit {0})
  unfolding http_options http_id_generator
  for_http log_level log_format service_name = record {
    id_generator = of_request http_id_generator;
    pino = λ nothing. http_options log_level log_format service_name;
    interceptors = "HttpTimingInterceptor" ∷ [];
    filters = [];
  }

  unfoldable pub for_grpc : String → LogFormat → String → LoggingModule grpc.Metadata (Unit {0})
  unfolding grpc_options grpc_id_generator
  for_grpc log_level log_format service_name = record {
    id_generator = of_context (grpc_id_generator grpc);
    pino = λ nothing. grpc_options log_level log_format service_name;
    interceptors = "GrpcCorrelationInterceptor" ∷ "GrpcLoggingInterceptor" ∷ [];
    filters = "AllRpcExceptionsFilter" ∷ [];
  }

  unfoldable pub for_http_async : String → LoggingModule grpc.Metadata LoggingConfig
  unfolding http_options http_id_generator
  for_http_async service_name = record {
    id_generator = of_request http_id_generator;
    pino = λ config. http_options config.log_level config.log_format service_name;
    interceptors = "HttpTimingInterceptor" ∷ [];
    filters = [];
  }

  unfoldable pub for_grpc_async : String → LoggingModule grpc.Metadata LoggingConfig
  unfolding grpc_options grpc_id_generator
  for_grpc_async service_name = record {
    id_generator = of_context (grpc_id_generator grpc);
    pino = λ config. grpc_options config.log_level config.log_format service_name;
    interceptors = "GrpcCorrelationInterceptor" ∷ "GrpcLoggingInterceptor" ∷ [];
    filters = "AllRpcExceptionsFilter" ∷ [];
  }
