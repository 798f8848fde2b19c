-- ===== src/Parser/Messages.antt =====
-- apps/parser/src/application/commands and ports/inbound, and the messages of
-- packages/contracts/proto/parser.proto: what a call of the parser service carries.
use email_platform_services.Paging.{PaginationRequest}
use email_platform_services.Common.{ℕ, ℤ, String, Bool, Option}

pub record CreateParserTaskRequest : Type 0 where
  pub category : String
  pub date_from : String
  pub date_to : String
  pub user_id : String

pub record ListParserTasksRequest : Type 0 where
  pub pagination : Option PaginationRequest
  pub user_id : String

pub record ParserTaskIdRequest : Type 0 where
  pub id : String

pub record UpdateParserSettingsRequest : Type 0 where
  pub max_pages : Option ℤ
  pub batch_size : Option ℤ
  pub auto_import : Option Bool

pub record CreateTaskCommand : Type 0 where
  pub category : String
  pub date_from : String
  pub date_to : String
  pub user_id : String

pub record ListTasksCommand : Type 0 where
  pub page : ℕ
  pub limit : ℕ
  pub user_id : String

pub record GetTaskCommand : Type 0 where
  pub id : String

pub record UpdateSettingsCommand : Type 0 where
  pub max_pages : Option ℤ
  pub batch_size : Option ℤ
  pub auto_import : Option Bool

pub record TaskResult : Type 0 where
  pub id : String
  pub category : String
  pub status : String
  pub date_from : String
  pub date_to : String
  pub total_found : ℤ
  pub total_parsed : ℤ
  pub csv_url : String
  pub user_id : String
  pub created_at : String
  pub updated_at : String

pub record ParserTaskMessage : Type 0 where
  pub id : String
  pub category : String
  pub status : String
  pub date_from : String
  pub date_to : String
  pub total_found : ℤ
  pub total_parsed : ℤ
  pub csv_url : String
  pub user_id : String
  pub created_at : String
  pub updated_at : String

pub record ParserSettingsResult : Type 0 where
  pub max_pages : ℤ
  pub batch_size : ℤ
  pub auto_import : Bool

pub record ParserSettings : Type 0 where
  pub max_pages : ℤ
  pub batch_size : ℤ
  pub auto_import : Bool
