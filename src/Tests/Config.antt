-- ===== src/Tests/Config.antt =====
-- Examples for the configuration of the apps and what is built from it.
use email_platform_services.Common.{
  ℕ, ◌≡◌, ◌≢◌, refl, ap, sym, subst, String, str_eq, true, some, [], ◌∷◌, All, map, Dict, lookup,
  insert, spread, ok, if◌then◌else◌,
}
use email_platform_services.Config.Shapes.{Value, text, Schema}
use email_platform_services.Config.Schemas.{
  spread_all, auth_env, sender_env, cors_refinement, is_set, is_text,
}
use email_platform_services.Config.Apps.{App, narrow_ports}
use email_platform_services.Config.Load.{Process, load_config, cached_at}
use email_platform_services.Config.Cache.{Reach, changes_env, here, onward, load_config-Reach}
use email_platform_services.Config.Laws.{schema_of, slice_defined, narrow_ports_defined}
use email_platform_services.Gateway.{cors_origin, listed}
use email_platform_services.Gateway.Laws.{cors_origin_strict}
use email_platform_services.Config.Services.{ServiceId}
use email_platform_services.Grpc.Clients.{ClientModule}
use email_platform_services.Grpc.Laws.{UpperCase, client_url, client_url_found}
use email_platform_services.Vendors.Modules.{cloudfn, base_url_key, secret_key, vendor_client}
use email_platform_services.Vendors.Modules.Laws.{vendor_client_built}
use email_platform_services.Http.Provider.{HttpClientDeps}
use email_platform_services.Tests.Zod.{zod, parse, parsed, object, add}

abbrev auth_variables : Dict String
auth_variables =
    ("AUTH_GRPC_PORT", "5000")
    ∷ ("AUTH_GRPC_URL", "auth:5000")
    ∷ ("DATABASE_URL", "postgres://db")
    ∷ ("REDIS_URL", "redis://cache")
    ∷ ("LOG_LEVEL", "info")
    ∷ ("LOG_FORMAT", "json")
    ∷ ("GRPC_DEADLINE_MS", "3000")
    ∷ ("PROTO_DIR", "proto")
    ∷ []

abbrev auth_config : Dict (Value ℕ)
auth_config = parsed auth_env auth_variables

auth_parsed : zod.parse (schema_of zod App.auth) auth_variables ≡ ok auth_config
unfolding parsed parse object add lookup insert spread spread_all
auth_parsed = refl

narrow_ports_defined_example :
    All (λ n. slice_defined (n.slice auth_config) ≡ true) (narrow_ports App.auth)
narrow_ports_defined_example =
    narrow_ports_defined zod App.auth auth_variables auth_config auth_parsed

abbrev gateway_variables : Dict String
gateway_variables =
    ("GATEWAY_PORT", "3000")
    ∷ ("AUTH_GRPC_PORT", "5000")
    ∷ ("AUTH_GRPC_URL", "auth:5000")
    ∷ ("SENDER_GRPC_PORT", "5001")
    ∷ ("SENDER_GRPC_URL", "sender:5001")
    ∷ ("PARSER_GRPC_PORT", "5002")
    ∷ ("PARSER_GRPC_URL", "parser:5002")
    ∷ ("AUDIENCE_GRPC_PORT", "5003")
    ∷ ("AUDIENCE_GRPC_URL", "audience:5003")
    ∷ ("NOTIFIER_GRPC_PORT", "5004")
    ∷ ("NOTIFIER_GRPC_URL", "notifier:5004")
    ∷ ("LOG_LEVEL", "info")
    ∷ ("LOG_FORMAT", "json")
    ∷ ("GRPC_DEADLINE_MS", "3000")
    ∷ ("PROTO_DIR", "proto")
    ∷ ("CORS_ORIGINS", "https://a")
    ∷ ("CORS_STRICT", "true")
    ∷ ("RATE_LIMIT_BURST_TTL", "1000")
    ∷ ("RATE_LIMIT_BURST_LIMIT", "10")
    ∷ ("RATE_LIMIT_SUSTAINED_TTL", "60000")
    ∷ ("RATE_LIMIT_SUSTAINED_LIMIT", "100")
    ∷ ("REDIS_URL", "redis://cache")
    ∷ []

abbrev gateway_config : Dict (Value ℕ)
gateway_config = parsed (schema_of zod App.gateway) gateway_variables

gateway_parsed : zod.parse (schema_of zod App.gateway) gateway_variables ≡ ok gateway_config
unfolding parsed parse object add lookup insert spread spread_all cors_refinement is_set is_text
gateway_parsed = refl

strict : lookup "CORS_STRICT" gateway_variables ≡ some "true"
unfolding lookup
strict = refl

cors_origin_strict_example :
    (origins : String) × (lookup "CORS_ORIGINS" gateway_variables ≡ some origins)
    × (lookup "CORS_ORIGINS" gateway_config ≡ some (text origins))
    × (cors_origin (λ at s. s ∷ []) (λ s. s) origins ≡ listed (map (λ s. s) (origins ∷ [])))
    × (origins ≢ "")
cors_origin_strict_example =
    cors_origin_strict zod (λ at s. s ∷ []) (λ s. s) gateway_variables gateway_config gateway_parsed
      strict

abbrev sender_variables : Dict String
sender_variables =
    ("SENDER_GRPC_PORT", "5001")
    ∷ ("SENDER_GRPC_URL", "sender:5001")
    ∷ ("AUDIENCE_GRPC_PORT", "5003")
    ∷ ("AUDIENCE_GRPC_URL", "audience:5003")
    ∷ ("DATABASE_URL", "postgres://db")
    ∷ ("REDIS_URL", "redis://cache")
    ∷ ("LOG_LEVEL", "info")
    ∷ ("LOG_FORMAT", "json")
    ∷ ("GRPC_DEADLINE_MS", "3000")
    ∷ ("PROTO_DIR", "proto")
    ∷ ("CLOUDFN_API_KEY", "key")
    ∷ ("CLOUDFN_BASE_URL", "https://functions")
    ∷ []

abbrev sender_config : Dict (Value ℕ)
sender_config = parsed sender_env sender_variables

sender_parsed : zod.parse (schema_of zod App.sender) sender_variables ≡ ok sender_config
unfolding parsed parse object add lookup insert spread spread_all
sender_parsed = refl

-- The upper case of the services' identities.
abbrev to_upper_case : String → String
to_upper_case s =
    if str_eq s "auth"
    then "AUTH"
    else (if str_eq s "sender"
        then "SENDER"
        else (if str_eq s "parser"
            then "PARSER"
            else (if str_eq s "audience" then "AUDIENCE" else "NOTIFIER")))

abbrev upper : UpperCase
upper = record {
  to_upper_case = to_upper_case;
  auth_upper = refl;
  sender_upper = refl;
  parser_upper = refl;
  audience_upper = refl;
  notifier_upper = refl;
}

client_url_found_example :
    (url : String) × (client_url zod upper App.gateway ServiceId.auth gateway_config
      ≡ some (text url))
    × (url ≢ "")
client_url_found_example =
    client_url_found zod upper App.gateway ServiceId.auth gateway_variables gateway_config
      ClientModule.gateway_auth gateway_parsed

vendor_client_built_example :
    (deps : HttpClientDeps ℕ) × (url secret : String) × (vendor_client cloudfn sender_config
      ≡ ok (deps, some (text secret)))
    × (lookup (base_url_key cloudfn) sender_variables ≡ some url)
    × (deps.base_url ≡ some (text url))
    × (lookup (secret_key cloudfn) sender_variables ≡ some secret)
    × (secret ≢ "")
    × (deps.cb ≡ record { consecutive_threshold = 5; half_open_after_ms = 30000 })
    × (deps.default_timeout_ms ≡ 5000)
vendor_client_built_example =
    vendor_client_built zod cloudfn sender_variables sender_config sender_parsed

-- One schema, at every reference.
abbrev schema_at : ℕ → Schema ℕ
schema_at reference = auth_env

abbrev started : Process ℕ
started = record { cache = []; env = auth_variables }

abbrev loaded : Process ℕ
loaded = record { cache = (7, auth_config) ∷ []; env = auth_variables }

first_load : load_config zod schema_at 7 started ≡ (ok auth_config, loaded)
unfolding load_config cached_at parsed parse object add lookup insert spread spread_all
first_load = refl

emptied : Reach zod schema_at loaded (record loaded { env = [] })
emptied = onward loaded _ _ (changes_env [] loaded) (here _)

load_config-Reach_example :
    load_config zod schema_at 7 (record loaded { env = [] })
    ≡ (ok auth_config, record loaded { env = [] })
load_config-Reach_example =
    load_config-Reach zod schema_at 7 started (record loaded { env = [] }) auth_config
      (ap (λ p. p.0) first_load)
      (subst (λ p. Reach zod schema_at p.1 (record loaded { env = [] })) (sym first_load) emptied)
