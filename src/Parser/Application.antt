-- ===== src/Parser/Application.antt =====
-- apps/parser/src/application/use-cases and services, and the bindings of
-- infrastructure/inbound/grpc/grpc.module.ts. The use cases are those of the source: none is
-- implemented yet, and each throws. The services are written over any use cases.
use email_platform_services.Common.{Outcome, not_implemented}
use email_platform_services.Paging.{PageOf}
use email_platform_services.Parser.Messages.{
  CreateTaskCommand, ListTasksCommand, GetTaskCommand, UpdateSettingsCommand, TaskResult,
  ParserSettingsResult,
}
use email_platform_services.Parser.Controller.{Ports}

-- The `execute` methods of the use cases.
pub record UseCases (S : Type 0) : Type 0 where
  pub create_parser_task : CreateTaskCommand → S → Outcome TaskResult × S
  pub list_parser_tasks : ListTasksCommand → S → Outcome (PageOf TaskResult) × S
  pub get_parser_task : GetTaskCommand → S → Outcome TaskResult × S
  pub get_parser_settings : S → Outcome ParserSettingsResult × S
  pub update_parser_settings : UpdateSettingsCommand → S → Outcome ParserSettingsResult × S

module _ {S : Type 0} where
  unfoldable pub create_parser_task_use_case : CreateTaskCommand → S → Outcome TaskResult × S
  create_parser_task_use_case cmd = not_implemented "CreateParserTaskUseCase"

  unfoldable pub list_parser_tasks_use_case : ListTasksCommand → S → Outcome (PageOf TaskResult) × S
  list_parser_tasks_use_case cmd = not_implemented "ListParserTasksUseCase"

  unfoldable pub get_parser_task_use_case : GetTaskCommand → S → Outcome TaskResult × S
  get_parser_task_use_case cmd = not_implemented "GetParserTaskUseCase"

  unfoldable pub get_parser_settings_use_case : S → Outcome ParserSettingsResult × S
  get_parser_settings_use_case = not_implemented "GetParserSettingsUseCase"

  unfoldable pub update_parser_settings_use_case :
      UpdateSettingsCommand → S → Outcome ParserSettingsResult × S
  update_parser_settings_use_case cmd = not_implemented "UpdateParserSettingsUseCase"

  abbrev pub use_cases : UseCases S
  use_cases = record {
    create_parser_task = create_parser_task_use_case;
    list_parser_tasks = list_parser_tasks_use_case;
    get_parser_task = get_parser_task_use_case;
    get_parser_settings = get_parser_settings_use_case;
    update_parser_settings = update_parser_settings_use_case;
  }

module _ {S : Type 0} (cases : UseCases S) where
  unfoldable pub create_task_service : CreateTaskCommand → S → Outcome TaskResult × S
  create_task_service cmd = cases.create_parser_task cmd

  unfoldable pub list_tasks_service : ListTasksCommand → S → Outcome (PageOf TaskResult) × S
  list_tasks_service cmd = cases.list_parser_tasks cmd

  unfoldable pub get_task_service : GetTaskCommand → S → Outcome TaskResult × S
  get_task_service cmd = cases.get_parser_task cmd

  unfoldable pub get_settings_service : S → Outcome ParserSettingsResult × S
  get_settings_service = cases.get_parser_settings

  unfoldable pub update_settings_service :
      UpdateSettingsCommand → S → Outcome ParserSettingsResult × S
  update_settings_service cmd = cases.update_parser_settings cmd

  -- The ports that the controller is bound to.
  abbrev pub bound : Ports S
  bound = record {
    create_task = create_task_service;
    list_tasks = list_tasks_service;
    get_task = get_task_service;
    get_settings = get_settings_service;
    update_settings = update_settings_service;
  }
