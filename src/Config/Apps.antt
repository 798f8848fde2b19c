-- ===== src/Config/Apps.antt =====
-- apps/*/src/infrastructure/bootstrap/config: the narrow ports of each app's config module, and the
-- schema it loads.
use email_platform_services.Common.{String, List, [], ◌∷◌, Dict, Option, Bool, lookup, map}
use email_platform_services.Config.Shapes.{Schema}
use email_platform_services.Config.Schemas.{
  auth_env, sender_env, parser_env, audience_env, notifier_env, gateway_env,
}
use email_platform_services.Config.Load.{plain, with_grpc_urls, NarrowPort}

pub data App : Type 0 where
  auth sender parser audience notifier gateway : App

-- `({ KEY: c.KEY, ... })`.
unfoldable pub pick : {V : Type 0} → List String → Dict V → Dict (Option V)
pick keys c = map (λ key. (key, lookup key c)) keys

-- The addresses in an app's `grpcUrls`.
abbrev pub grpc_urls : App → List String
grpc_urls auth = []
grpc_urls sender = "AUDIENCE_GRPC_URL" ∷ []
grpc_urls parser = "NOTIFIER_GRPC_URL" ∷ []
grpc_urls audience = "PARSER_GRPC_URL" ∷ []
grpc_urls notifier = []
grpc_urls gateway =
    "AUTH_GRPC_URL" ∷ "SENDER_GRPC_URL" ∷ "PARSER_GRPC_URL" ∷ "AUDIENCE_GRPC_URL"
    ∷ "NOTIFIER_GRPC_URL" ∷ []

module _ {N : Type 0} where
  abbrev pub env_schema : (N → Bool) → App → Schema N
  env_schema nonzero auth = auth_env
  env_schema nonzero sender = sender_env
  env_schema nonzero parser = parser_env
  env_schema nonzero audience = audience_env
  env_schema nonzero notifier = notifier_env
  env_schema nonzero gateway = gateway_env nonzero

  abbrev pub persistence_port : NarrowPort N
  persistence_port = record {
    port = "PERSISTENCE_CONFIG_PORT";
    slice = λ c. plain (pick ("DATABASE_URL" ∷ []) c);
  }

  abbrev pub logging_port : NarrowPort N
  logging_port = record {
    port = "LOGGING_CONFIG_PORT";
    slice = λ c. plain (pick ("LOG_LEVEL" ∷ "LOG_FORMAT" ∷ []) c);
  }

  abbrev pub cache_port : NarrowPort N
  cache_port = record { port = "CACHE_CONFIG_PORT"; slice = λ c. plain (pick ("REDIS_URL" ∷ []) c) }

  abbrev pub storage_core_port : NarrowPort N
  storage_core_port = record {
    port = "STORAGE_CORE_CONFIG_PORT";
    slice = λ c. plain (
        pick
          ("STORAGE_PROTOCOL" ∷ "STORAGE_ENDPOINT" ∷ "STORAGE_PORT" ∷ "STORAGE_REGION"
            ∷ "STORAGE_ACCESS_KEY" ∷ "STORAGE_SECRET_KEY" ∷ [])
          c);
  }

  abbrev pub public_storage_port : NarrowPort N
  public_storage_port = record {
    port = "PUBLIC_STORAGE_CONFIG_PORT";
    slice = λ c. plain (pick ("STORAGE_PUBLIC_URL" ∷ "STORAGE_MAX_UPLOAD_BYTES" ∷ []) c);
  }

  -- The port of the gRPC clients, with the addresses of some services.
  abbrev pub grpc_client_port : List String → NarrowPort N
  grpc_client_port urls = record {
    port = "GRPC_CLIENT_CONFIG_PORT";
    slice = λ c. with_grpc_urls (pick ("PROTO_DIR" ∷ "GRPC_DEADLINE_MS" ∷ []) c) (pick urls c);
  }

  abbrev pub auth_ports : List (NarrowPort N)
  auth_ports = persistence_port ∷ logging_port ∷ cache_port ∷ []

  abbrev pub sender_ports : List (NarrowPort N)
  sender_ports =
      persistence_port ∷ logging_port ∷ cache_port ∷ grpc_client_port (grpc_urls sender) ∷ []

  abbrev pub parser_ports : List (NarrowPort N)
  parser_ports =
      persistence_port
      ∷ logging_port
      ∷ cache_port
      ∷ storage_core_port
      ∷ public_storage_port
      ∷ grpc_client_port (grpc_urls parser)
      ∷ []

  abbrev pub audience_ports : List (NarrowPort N)
  audience_ports =
      persistence_port ∷ logging_port ∷ cache_port ∷ grpc_client_port (grpc_urls audience) ∷ []

  abbrev pub notifier_ports : List (NarrowPort N)
  notifier_ports = logging_port ∷ cache_port ∷ storage_core_port ∷ public_storage_port ∷ []

  abbrev pub gateway_ports : List (NarrowPort N)
  gateway_ports = logging_port ∷ cache_port ∷ grpc_client_port (grpc_urls gateway) ∷ []

  -- The narrow ports of an app's config module.
  abbrev pub narrow_ports : App → List (NarrowPort N)
  narrow_ports auth = auth_ports
  narrow_ports sender = sender_ports
  narrow_ports parser = parser_ports
  narrow_ports audience = audience_ports
  narrow_ports notifier = notifier_ports
  narrow_ports gateway = gateway_ports
