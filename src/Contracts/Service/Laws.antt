-- ===== src/Contracts/Service/Laws.antt =====
-- What crosses the wire arrives.
use email_platform_services.Common.{◌≡◌, All, Outcome, ok}
use email_platform_services.Paging.{ListOf}
use email_platform_services.Parser.Messages.{
  ParserTaskIdRequest, CreateParserTaskRequest, ListParserTasksRequest, UpdateParserSettingsRequest,
  ParserTaskMessage, ParserSettings,
}
use email_platform_services.Contracts.Wire.{Bytes, Writing, Reading, IsInt32}
use email_platform_services.Contracts.Codec.{Decoded, got, Decoder, serialize, deserialize, decode}
use email_platform_services.Contracts.Codec.Fields.{AllOf, Writes}
use email_platform_services.Contracts.Codec.Nested.{serialize-deserialize}
use email_platform_services.Contracts.Messages.{CommonMessages}
use email_platform_services.Contracts.Messages.Ends.{
  HonestCommon, IsSendableRequest, IsSendableMeta,
}
use email_platform_services.Contracts.Messages.Requests.{
  create_task_request-Writes, task_id_request-Writes, list_tasks_request-Writes,
  update_settings_request-Writes,
}
use email_platform_services.Contracts.Messages.RoundTrip.{
  IsSendableTask, parser_task-Writes, parser_task_list-Writes, parser_settings-Writes,
}
use email_platform_services.Contracts.Service.{
  create_task_method, list_tasks_method, get_task_method, update_settings_method,
}

-- A message is serialised, and deserialising its bytes gives it back.
abbrev pub ReadsBack : {M : Type 0} → (M → Outcome Bytes) → (Bytes → Decoded M) → M → Type 0
ReadsBack serialise deserialise m =
    (bytes : Bytes) × (serialise m ≡ ok bytes) × (deserialise bytes ≡ got m)

module _ {writing : Writing} {reading : Reading writing} (common : CommonMessages reading)
    (honest : HonestCommon common) where
  ReadsBack-Writes :
      {M : Type 0} (message : Decoder M reading.Reader)
      (encode : M → writing.Writer → Outcome writing.Writer) (m : M)
      → Writes reading message.cases (encode m) message.base m
      → ReadsBack (serialize writing encode) (deserialize reading (decode reading message)) m
  ReadsBack-Writes message encode m writes =
      let (sent, read) = serialize-deserialize reading message encode m writes in
      (writes.bytes, sent, read)

  -- What a client asks of the parser service arrives as it was sent, when the optional numbers of
  -- a request fit into 32 bits: a new task, the id of a task, the page and the owner of a list,
  -- and settings, of which those that are left out stay left out.
  pub requests_read_back :
      (new : CreateParserTaskRequest) (asked : ParserTaskIdRequest)
      (listed : ListParserTasksRequest) (update : UpdateParserSettingsRequest)
      → AllOf IsSendableRequest listed.pagination
      → AllOf IsInt32 update.max_pages
      → AllOf IsInt32 update.batch_size
      → let create = create_task_method common in
        let get = get_task_method common in
        let list = list_tasks_method common in
        let settings = update_settings_method common in
        ReadsBack create.request_serialize create.request_deserialize new
        × ReadsBack get.request_serialize get.request_deserialize asked
        × ReadsBack list.request_serialize list.request_deserialize listed
        × ReadsBack settings.request_serialize settings.request_deserialize update
  requests_read_back new asked listed update page max batch = (
    ReadsBack-Writes _ _ _ (create_task_request-Writes common honest new),
    ReadsBack-Writes _ _ _ (task_id_request-Writes common honest asked),
    ReadsBack-Writes _ _ _ (list_tasks_request-Writes common honest listed page),
    ReadsBack-Writes _ _ _ (update_settings_request-Writes common honest update max batch),
  )

  -- What the parser service replies arrives as it was sent, when its numbers fit into 32 bits and
  -- each task of a list into 4 GiB: a task, a list with its tasks in order, and settings.
  pub responses_read_back :
      (task : ParserTaskMessage) (tasks : ListOf ParserTaskMessage) (settings : ParserSettings)
      → IsInt32 task.total_found
      → IsInt32 task.total_parsed
      → All (IsSendableTask common) tasks.items
      → AllOf IsSendableMeta tasks.pagination
      → IsInt32 settings.max_pages
      → IsInt32 settings.batch_size
      → let get = get_task_method common in
        let list = list_tasks_method common in
        let update = update_settings_method common in
        ReadsBack get.response_serialize get.response_deserialize task
        × ReadsBack list.response_serialize list.response_deserialize tasks
        × ReadsBack update.response_serialize update.response_deserialize settings
  responses_read_back task tasks settings found parsed small page max batch = (
    ReadsBack-Writes _ _ _ (parser_task-Writes common honest task found parsed),
    ReadsBack-Writes _ _ _ (parser_task_list-Writes common honest tasks small page),
    ReadsBack-Writes _ _ _ (parser_settings-Writes common honest settings max batch),
  )
