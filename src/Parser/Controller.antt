-- ===== src/Parser/Controller.antt =====
-- apps/parser/src/infrastructure/inbound/grpc/parser.controller.ts: from a call's message to a
-- command, and from the result of the inbound port to the reply.
use email_platform_services.Common.{Outcome, answer}
use email_platform_services.Paging.{PageOf, ListOf, page_of, limit_of, list_reply}
use email_platform_services.Parser.Messages.{
  CreateParserTaskRequest, ListParserTasksRequest, ParserTaskIdRequest, UpdateParserSettingsRequest,
  CreateTaskCommand, ListTasksCommand, GetTaskCommand, UpdateSettingsCommand, TaskResult,
  ParserTaskMessage, ParserSettingsResult, ParserSettings,
}

-- The inbound ports, over the state `S` of the service. `GetSettingsCommand` has no fields.
pub record Ports (S : Type 0) : Type 0 where
  pub create_task : CreateTaskCommand → S → Outcome TaskResult × S
  pub list_tasks : ListTasksCommand → S → Outcome (PageOf TaskResult) × S
  pub get_task : GetTaskCommand → S → Outcome TaskResult × S
  pub get_settings : S → Outcome ParserSettingsResult × S
  pub update_settings : UpdateSettingsCommand → S → Outcome ParserSettingsResult × S

unfoldable pub task_reply : TaskResult → ParserTaskMessage
task_reply result = record {
  id = result.id;
  category = result.category;
  status = result.status;
  date_from = result.date_from;
  date_to = result.date_to;
  total_found = result.total_found;
  total_parsed = result.total_parsed;
  csv_url = result.csv_url;
  user_id = result.user_id;
  created_at = result.created_at;
  updated_at = result.updated_at;
}

unfoldable pub settings_reply : ParserSettingsResult → ParserSettings
settings_reply result = record {
  max_pages = result.max_pages;
  batch_size = result.batch_size;
  auto_import = result.auto_import;
}

module _ {S : Type 0} (ports : Ports S) where
  unfoldable pub create_task : CreateParserTaskRequest → S → Outcome ParserTaskMessage × S
  unfolding task_reply
  create_task req s =
      let cmd : CreateTaskCommand = record {
        category = req.category;
        date_from = req.date_from;
        date_to = req.date_to;
        user_id = req.user_id;
      } in
      answer task_reply (ports.create_task cmd s)

  unfoldable pub list_tasks : ListParserTasksRequest → S → Outcome (ListOf ParserTaskMessage) × S
  unfolding page_of limit_of list_reply task_reply
  list_tasks req s =
      let cmd : ListTasksCommand = record {
        page = page_of req.pagination;
        limit = limit_of req.pagination;
        user_id = req.user_id;
      } in
      answer (list_reply task_reply) (ports.list_tasks cmd s)

  unfoldable pub get_task : ParserTaskIdRequest → S → Outcome ParserTaskMessage × S
  unfolding task_reply
  get_task req s = answer task_reply (ports.get_task (record { id = req.id }) s)

  unfoldable pub get_settings : S → Outcome ParserSettings × S
  unfolding settings_reply
  get_settings s = answer settings_reply (ports.get_settings s)

  unfoldable pub update_settings : UpdateParserSettingsRequest → S → Outcome ParserSettings × S
  unfolding settings_reply
  update_settings req s =
      let cmd : UpdateSettingsCommand = record {
        max_pages = req.max_pages;
        batch_size = req.batch_size;
        auto_import = req.auto_import;
      } in
      answer settings_reply (ports.update_settings cmd s)
