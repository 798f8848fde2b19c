-- ===== src/Contracts/Service.antt =====
-- The services of packages/contracts/src/generated/parser.ts and notifier.ts: the methods with
-- their paths and codecs, and the decorators of a controller's methods.
pub mod Laws
use email_platform_services.Common.{String, List, [], ◌∷◌, Outcome}
use email_platform_services.Paging.{ListOf}
use email_platform_services.Parser.Messages.{
  ParserTaskIdRequest, CreateParserTaskRequest, ListParserTasksRequest, UpdateParserSettingsRequest,
  ParserTaskMessage, ParserSettings,
}
use email_platform_services.Contracts.Wire.{Bytes, Writing, Reading}
use email_platform_services.Contracts.Codec.{
  Decoded, Decoder, settled, decode, serialize, deserialize,
}
use email_platform_services.Contracts.Messages.{
  Codec, CommonMessages, task_id_request, task_id_request_encode, create_task_request,
  create_task_request_encode, list_tasks_request, list_tasks_request_encode,
  update_settings_request, update_settings_request_encode, parser_task, parser_task_encode,
  parser_task_list, parser_task_list_encode, parser_settings, parser_settings_encode,
}

-- A unary method; no method streams.
pub record Method (Request Response : Type 0) : Type 0 where
  pub path : String
  pub request_serialize : Request → Outcome Bytes
  pub request_deserialize : Bytes → Decoded Request
  pub response_serialize : Response → Outcome Bytes
  pub response_deserialize : Bytes → Decoded Response

module _ {writing : Writing} {reading : Reading writing} (common : CommonMessages reading) where
  open reading use {Reader}

  -- The two directions of a message of `./common`, and of one of parser.ts.
  abbrev pub serialize_common : {M : Type 0} → Codec reading M → M → Outcome Bytes
  serialize_common codec = serialize writing codec.encode

  abbrev pub deserialize_common : {M : Type 0} → Codec reading M → Bytes → Decoded M
  deserialize_common codec = deserialize reading (λ length r. settled (codec.decode length r))

  abbrev pub deserialize_message : {M : Type 0} → Decoder M Reader → Bytes → Decoded M
  deserialize_message message = deserialize reading (decode reading message)

  abbrev pub parser_health_check : Method common.Empty common.HealthStatus
  parser_health_check = record {
    path = "/parser.ParserService/HealthCheck";
    request_serialize = serialize_common common.empty;
    request_deserialize = deserialize_common common.empty;
    response_serialize = serialize_common common.health_status;
    response_deserialize = deserialize_common common.health_status;
  }

  abbrev pub create_task_method : Method CreateParserTaskRequest ParserTaskMessage
  create_task_method = record {
    path = "/parser.ParserService/CreateTask";
    request_serialize = serialize writing (create_task_request_encode common);
    request_deserialize = deserialize_message (create_task_request common);
    response_serialize = serialize writing (parser_task_encode common);
    response_deserialize = deserialize_message (parser_task common);
  }

  abbrev pub list_tasks_method : Method ListParserTasksRequest (ListOf ParserTaskMessage)
  list_tasks_method = record {
    path = "/parser.ParserService/ListTasks";
    request_serialize = serialize writing (list_tasks_request_encode common);
    request_deserialize = deserialize_message (list_tasks_request common);
    response_serialize = serialize writing (parser_task_list_encode common);
    response_deserialize = deserialize_message (parser_task_list common);
  }

  abbrev pub get_task_method : Method ParserTaskIdRequest ParserTaskMessage
  get_task_method = record {
    path = "/parser.ParserService/GetTask";
    request_serialize = serialize writing (task_id_request_encode common);
    request_deserialize = deserialize_message (task_id_request common);
    response_serialize = serialize writing (parser_task_encode common);
    response_deserialize = deserialize_message (parser_task common);
  }

  abbrev pub get_settings_method : Method common.Empty ParserSettings
  get_settings_method = record {
    path = "/parser.ParserService/GetSettings";
    request_serialize = serialize_common common.empty;
    request_deserialize = deserialize_common common.empty;
    response_serialize = serialize writing (parser_settings_encode common);
    response_deserialize = deserialize_message (parser_settings common);
  }

  abbrev pub update_settings_method : Method UpdateParserSettingsRequest ParserSettings
  update_settings_method = record {
    path = "/parser.ParserService/UpdateSettings";
    request_serialize = serialize writing (update_settings_request_encode common);
    request_deserialize = deserialize_message (update_settings_request common);
    response_serialize = serialize writing (parser_settings_encode common);
    response_deserialize = deserialize_message (parser_settings common);
  }

  -- `NotifierServiceService.healthCheck`.
  abbrev pub notifier_health_check : Method common.Empty common.HealthStatus
  notifier_health_check = record {
    path = "/notifier.NotifierService/HealthCheck";
    request_serialize = serialize_common common.empty;
    request_deserialize = deserialize_common common.empty;
    response_serialize = serialize_common common.health_status;
    response_deserialize = deserialize_common common.health_status;
  }

-- The loop of a `...ControllerMethods()`: each method of the controller is decorated with
-- `GrpcMethod(service, method)`; no method is a stream.
unfoldable pub decorate_methods :
    {Controller : Type 0}
    → (String → String → Controller → Controller)
    → String
    → List String
    → Controller
    → Controller
decorate_methods grpc_method service [] controller = controller
decorate_methods grpc_method service (method ∷ methods) controller =
    decorate_methods grpc_method service methods (grpc_method service method controller)

unfoldable pub parser_service_controller_methods :
    {Controller : Type 0} → (String → String → Controller → Controller) → Controller → Controller
unfolding decorate_methods
parser_service_controller_methods grpc_method =
    decorate_methods grpc_method "ParserService" (
      "healthCheck" ∷ "createTask" ∷ "listTasks" ∷ "getTask" ∷ "getSettings" ∷ "updateSettings"
      ∷ [])

unfoldable pub notifier_service_controller_methods :
    {Controller : Type 0} → (String → String → Controller → Controller) → Controller → Controller
unfolding decorate_methods
notifier_service_controller_methods grpc_method =
    decorate_methods grpc_method "NotifierService" ("healthCheck" ∷ [])
