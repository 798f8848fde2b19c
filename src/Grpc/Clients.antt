-- ===== src/Grpc/Clients.antt =====
-- packages/foundation/src/external/grpc/clients/define-grpc-client.ts, and the client modules of
-- apps/*/src/infrastructure/outbound/grpc-clients: which app is a client of which service.
use Prim.Native.String.{◌++◌ as append}
use email_platform_services.Common.{ℕ, String, Option, none, some, List, [], ◌∷◌, Dict, lookup}
use email_platform_services.Grpc.Protos.{Files, resolve_proto_path}
use email_platform_services.Grpc.Calls.{
  RawClient, ClientProperty, PropertyKey, promisified, CallOptions, with_default_deadline,
}
use email_platform_services.Config.Services.{ServiceIdentity, ServiceId}
use email_platform_services.Config.Apps.{App}

-- The tokens, and what of the service's identity the client uses.
pub record GrpcClientBuild : Type 0 where
  pub grpc_token : String
  pub health_token : String
  pub exports : List String
  pub url_key : String
  pub proto_package : String
  pub service_name : String

module _ (to_upper_case : String → String) where
  -- For a service with a gRPC server; the type of the source's argument has no other.
  unfoldable pub define_grpc_client : ServiceIdentity → String → Option GrpcClientBuild
  define_grpc_client service client_token = elim service.grpc [
    | none ↦ none
    | some grpc ↦
        let upper_id = to_upper_case service.id in
        some (record {
          grpc_token = append upper_id "_CLIENT_GRPC";
          health_token = append upper_id "_GRPC_HEALTH";
          exports = client_token ∷ append upper_id "_GRPC_HEALTH" ∷ [];
          url_key = append upper_id "_GRPC_URL";
          proto_package = grpc.proto_package;
          service_name = grpc.service_name;
        })
  ]

-- `GrpcClientConfig`.
pub record GrpcClientConfig (V : Type 0) : Type 0 where
  pub proto_dir : String
  pub grpc_deadline_ms : ℕ
  pub grpc_urls : Dict (Option V)

-- `config.grpcUrls[...]`.
unfoldable pub url_of : {V : Type 0} → GrpcClientBuild → Dict (Option V) → Option V
url_of build grpc_urls = elim (lookup build.url_key grpc_urls) [ none ↦ none | some url ↦ url ]

-- The options of the transport; `deadline` is the interceptor's.
pub record ClientOptions (V : Type 0) : Type 0 where
  pub url : Option V
  pub packages : List String
  pub proto_path : List String
  pub deadline : ℕ → CallOptions → CallOptions

-- `health_proto` is the path that `require.resolve` gives; `none` is a search without enough fuel.
unfoldable pub client_options :
    {V : Type 0} (files : Files)
    → ℕ
    → String
    → String
    → GrpcClientBuild
    → GrpcClientConfig V
    → Option (ClientOptions V)
unfolding url_of resolve_proto_path with_default_deadline
client_options files fuel cwd health_proto build config =
    elim (resolve_proto_path files fuel cwd build.proto_package config.proto_dir) [
      | none ↦ none
      | some path ↦ some (record {
        url = url_of build config.grpc_urls;
        packages = build.proto_package ∷ "grpc.health.v1" ∷ [];
        proto_path = path ∷ health_proto ∷ [];
        deadline = with_default_deadline config.grpc_deadline_ms;
      })
    ]

-- The client that is provided, over the service that the transport gives.
unfoldable pub facade :
    {S V : Type 0}
    → (ℕ → String)
    → GrpcClientConfig V
    → RawClient S
    → PropertyKey
    → ClientProperty S
unfolding promisified
facade show config raw = promisified show config.grpc_deadline_ms raw

-- The client modules: of the app, for the service.
pub data ClientModule : App → ServiceId → Type 0 where
  gateway_auth : ClientModule App.gateway ServiceId.auth
  gateway_sender : ClientModule App.gateway ServiceId.sender
  gateway_parser : ClientModule App.gateway ServiceId.parser
  gateway_audience : ClientModule App.gateway ServiceId.audience
  gateway_notifier : ClientModule App.gateway ServiceId.notifier
  sender_audience : ClientModule App.sender ServiceId.audience
  parser_notifier : ClientModule App.parser ServiceId.notifier
  audience_parser : ClientModule App.audience ServiceId.parser
