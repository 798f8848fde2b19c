-- ===== src/Wiring/Outbound.antt =====
-- apps/*/src/infrastructure/outbound: the modules of the cache, the repositories, the storage, the
-- vendors and the clients of other services.
use email_platform_services.Common.{String, none, some, [], ◌∷◌}
use email_platform_services.Wiring.{◌needs◌, Module, ◌and◌}
use email_platform_services.Wiring.Foundation.{
  module_of, alone, cache_module, persistence_module, for_bucket, for_namespace, grpc_client_module,
  http_client_binding,
}

-- `AppCacheModule`, the same in every app but for the namespace of the keys.
abbrev pub app_cache_module : Module
app_cache_module = module_of "AppCacheModule" (cache_module and alone) [] [] ("CacheModule" ∷ [])

-- The module of a repository, and that of a module that another passes on.
abbrev repository_module : String → String → Module
repository_module name port =
    module_of name (persistence_module and alone) ((port needs ("DRIZZLE" ∷ [])) ∷ []) []
      (port ∷ [])

abbrev user_module : Module
user_module = repository_module "UserModule" "USER_REPOSITORY_PORT"

abbrev recipient_module : Module
recipient_module = repository_module "RecipientModule" "RECIPIENT_REPOSITORY_PORT"

abbrev group_module : Module
group_module = repository_module "GroupModule" "GROUP_REPOSITORY_PORT"

abbrev campaign_module : Module
campaign_module = repository_module "CampaignModule" "CAMPAIGN_REPOSITORY_PORT"

abbrev parser_task_module : Module
parser_task_module = repository_module "ParserTaskModule" "PARSER_TASK_REPOSITORY_PORT"

abbrev passed_on : String → String → Module → Module
passed_on name member m = module_of name (m and alone) [] [] (member ∷ [])

abbrev pub auth_persistence : Module
auth_persistence = passed_on "AppPersistenceModule" "UserModule" user_module

abbrev pub audience_persistence : Module
audience_persistence =
    module_of "AppPersistenceModule" (recipient_module and group_module and alone) [] []
      ("RecipientModule" ∷ "GroupModule" ∷ [])

abbrev pub sender_persistence : Module
sender_persistence = passed_on "AppPersistenceModule" "CampaignModule" campaign_module

abbrev pub parser_persistence : Module
parser_persistence = passed_on "AppPersistenceModule" "ParserTaskModule" parser_task_module

abbrev bucket_module : Module
bucket_module =
    passed_on "BucketModule" "PrivateStorageModule"
      (for_bucket "PARSER_STORAGE" "PARSER_STORAGE_HEALTH")

abbrev parser_reports : Module
parser_reports =
    passed_on "ReportsModule" "SharedNamespaceModule" (for_namespace "SHARED_REPORTS" none)

abbrev notifier_reports : Module
notifier_reports =
    passed_on "ReportsModule" "SharedNamespaceModule"
      (for_namespace "SHARED_REPORTS" (some "PUBLIC_STORAGE_HEALTH"))

abbrev pub parser_storage : Module
parser_storage =
    module_of "AppStorageModule" (bucket_module and parser_reports and alone) [] []
      ("BucketModule" ∷ "ReportsModule" ∷ [])

abbrev pub notifier_storage : Module
notifier_storage = passed_on "AppStorageModule" "ReportsModule" notifier_reports

-- A module of one vendor's client.
abbrev vendor_module : String → String → String → Module
vendor_module name token env_token =
    module_of name alone (http_client_binding token env_token ∷ []) [] (token ∷ [])

abbrev cloudfn_client_module : Module
cloudfn_client_module = vendor_module "CloudFnClientModule" "CLOUDFN_CLIENT" "SENDER_CONFIG"

abbrev appstorespy_client_module : Module
appstorespy_client_module =
    vendor_module "AppStoreSpyClientModule" "APPSTORESPY_CLIENT" "PARSER_CONFIG"

abbrev telegram_client_module : Module
telegram_client_module = vendor_module "TelegramClientModule" "TELEGRAM_CLIENT" "NOTIFIER_CONFIG"

abbrev pub sender_http : Module
sender_http = passed_on "HttpClientsModule" "CloudFnClientModule" cloudfn_client_module

abbrev pub parser_http : Module
parser_http = passed_on "HttpClientsModule" "AppStoreSpyClientModule" appstorespy_client_module

abbrev pub notifier_http : Module
notifier_http = passed_on "HttpClientsModule" "TelegramClientModule" telegram_client_module

abbrev auth_client_module : Module
auth_client_module = grpc_client_module "AuthClientModule" "AUTH"

abbrev sender_client_module : Module
sender_client_module = grpc_client_module "SenderClientModule" "SENDER"

abbrev parser_client_module : Module
parser_client_module = grpc_client_module "ParserClientModule" "PARSER"

abbrev audience_client_module : Module
audience_client_module = grpc_client_module "AudienceClientModule" "AUDIENCE"

abbrev notifier_client_module : Module
notifier_client_module = grpc_client_module "NotifierClientModule" "NOTIFIER"

abbrev pub audience_grpc_clients : Module
audience_grpc_clients = passed_on "GrpcClientsModule" "ParserClientModule" parser_client_module

abbrev pub sender_grpc_clients : Module
sender_grpc_clients = passed_on "GrpcClientsModule" "AudienceClientModule" audience_client_module

abbrev pub parser_grpc_clients : Module
parser_grpc_clients = passed_on "GrpcClientsModule" "NotifierClientModule" notifier_client_module

abbrev pub gateway_grpc_clients : Module
gateway_grpc_clients =
    module_of "GrpcClientsModule"
      (auth_client_module and sender_client_module and parser_client_module
        and audience_client_module and notifier_client_module and alone)
      [] []
      ("AuthClientModule" ∷ "SenderClientModule" ∷ "ParserClientModule" ∷ "AudienceClientModule"
        ∷ "NotifierClientModule" ∷ [])
