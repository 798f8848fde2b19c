-- ===== src/Sender/Messages.antt =====
-- apps/sender/src/application/commands and ports/inbound, and the messages of
-- packages/contracts/proto/sender.proto: what a call of the sender's service carries.
use email_platform_services.Paging.{PaginationRequest}
use email_platform_services.Common.{ℕ, String, Option}

pub record CampaignResult : Type 0 where
  pub id : String
  pub name : String
  pub status : String
  pub message_id : String
  pub runner_id : String
  pub group_id : String
  pub user_id : String
  pub sent_count : ℕ
  pub failed_count : ℕ
  pub created_at : String
  pub updated_at : String

pub record Campaign : Type 0 where
  pub id : String
  pub name : String
  pub status : String
  pub message_id : String
  pub runner_id : String
  pub group_id : String
  pub user_id : String
  pub sent_count : ℕ
  pub failed_count : ℕ
  pub created_at : String
  pub updated_at : String

pub record RunnerResult : Type 0 where
  pub id : String
  pub name : String
  pub proxy_url : String
  pub sender_email : String
  pub sender_name : String
  pub interval_seconds : ℕ
  pub cooldown_seconds : ℕ
  pub created_at : String

pub record Runner : Type 0 where
  pub id : String
  pub name : String
  pub proxy_url : String
  pub sender_email : String
  pub sender_name : String
  pub interval_seconds : ℕ
  pub cooldown_seconds : ℕ
  pub created_at : String

pub record MessageResult : Type 0 where
  pub id : String
  pub subject : String
  pub body : String
  pub user_id : String
  pub created_at : String

pub record Message : Type 0 where
  pub id : String
  pub subject : String
  pub body : String
  pub user_id : String
  pub created_at : String

pub record MacrosResult : Type 0 where
  pub id : String
  pub name : String
  pub template : String
  pub created_at : String

pub record Macros : Type 0 where
  pub id : String
  pub name : String
  pub template : String
  pub created_at : String

pub record ListCampaignsRequest : Type 0 where
  pub pagination : Option PaginationRequest
  pub user_id : String

pub record CreateCampaignRequest : Type 0 where
  pub name : String
  pub message_id : String
  pub runner_id : String
  pub group_id : String
  pub user_id : String

pub record CreateRunnerRequest : Type 0 where
  pub name : String
  pub proxy_url : String
  pub sender_email : String
  pub sender_name : String
  pub interval_seconds : ℕ
  pub cooldown_seconds : ℕ

pub record CreateMessageRequest : Type 0 where
  pub subject : String
  pub body : String
  pub user_id : String

pub record ListCampaignsCommand : Type 0 where
  pub page : ℕ
  pub limit : ℕ
  pub user_id : String

pub record ListRunnersCommand : Type 0 where
  pub page : ℕ
  pub limit : ℕ

pub record ListMessagesCommand : Type 0 where
  pub page : ℕ
  pub limit : ℕ

pub record ListMacrosCommand : Type 0 where
  pub page : ℕ
  pub limit : ℕ

pub record CreateCampaignCommand : Type 0 where
  pub name : String
  pub message_id : String
  pub runner_id : String
  pub group_id : String
  pub user_id : String

pub record CreateRunnerCommand : Type 0 where
  pub name : String
  pub proxy_url : String
  pub sender_email : String
  pub sender_name : String
  pub interval_seconds : ℕ
  pub cooldown_seconds : ℕ

pub record CreateMessageCommand : Type 0 where
  pub subject : String
  pub body : String
  pub user_id : String

pub record GetCampaignCommand : Type 0 where
  pub id : String

pub record PauseCampaignCommand : Type 0 where
  pub id : String

pub record ResumeCampaignCommand : Type 0 where
  pub id : String
