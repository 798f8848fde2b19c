-- ===== src/Config/Services.antt =====
-- packages/config/src/service.ts and the identity files of packages/config/src/apps.
-- `to_upper_case` is the method of strings, and a symbol of `Symbol.for` is known by its text.
use Prim.Native.String.{◌++◌ as append}
use email_platform_services.Common.{String, Option, none, some}

pub record GrpcIdentity : Type 0 where
  pub proto_package : String
  pub service_name : String

pub record ServiceIdentity : Type 0 where
  pub id : String
  pub grpc : Option GrpcIdentity
  pub di_token : String

-- `service_name` is that of the input's `grpc`, where it has one.
unfoldable pub define_service : (String → String) → String → Option String → ServiceIdentity
define_service to_upper_case id none = record {
  id = id;
  grpc = none;
  di_token = append (to_upper_case id) "_CLIENT";
}
define_service to_upper_case id (some service_name) = record {
  id = id;
  grpc = some (record { proto_package = id; service_name = service_name });
  di_token = append (to_upper_case id) "_GRPC_CLIENT";
}

pub data ServiceId : Type 0 where
  audience auth sender parser gateway notifier : ServiceId

abbrev pub service : (String → String) → ServiceId → ServiceIdentity
service to_upper_case audience = define_service to_upper_case "audience" (some "AudienceService")
service to_upper_case auth = define_service to_upper_case "auth" (some "AuthService")
service to_upper_case sender = define_service to_upper_case "sender" (some "SenderService")
service to_upper_case parser = define_service to_upper_case "parser" (some "ParserService")
service to_upper_case gateway = define_service to_upper_case "gateway" none
service to_upper_case notifier = define_service to_upper_case "notifier" (some "NotifierService")
