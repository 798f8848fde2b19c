-- ===== src/Audience/Messages.antt =====
-- apps/audience/src/application/commands and ports/inbound, and the messages of
-- packages/contracts/proto/audience.proto: what a call of the audience's service carries.
use email_platform_services.Paging.{PaginationRequest}
use email_platform_services.Common.{ℕ, String, Bool, Option, List}

pub record GroupResult : Type 0 where
  pub id : String
  pub name : String
  pub recipient_count : ℕ
  pub user_id : String
  pub created_at : String

pub record Group : Type 0 where
  pub id : String
  pub name : String
  pub recipient_count : ℕ
  pub user_id : String
  pub created_at : String

pub record RecipientResult : Type 0 where
  pub id : String
  pub email : String
  pub name : String
  pub company : String
  pub group_id : String
  pub is_sent : Bool
  pub created_at : String

pub record Recipient : Type 0 where
  pub id : String
  pub email : String
  pub name : String
  pub company : String
  pub group_id : String
  pub is_sent : Bool
  pub created_at : String

pub record RecipientInput : Type 0 where
  pub email : String
  pub name : String
  pub company : String

pub record RecipientInputDto : Type 0 where
  pub email : String
  pub name : String
  pub company : String

pub record ImportRecipientsResult : Type 0 where
  pub imported : ℕ
  pub duplicates : ℕ
  pub total : ℕ

pub record ImportResult : Type 0 where
  pub imported : ℕ
  pub duplicates : ℕ
  pub total : ℕ

pub record ListGroupsRequest : Type 0 where
  pub pagination : Option PaginationRequest
  pub user_id : String

pub record CreateGroupRequest : Type 0 where
  pub name : String
  pub user_id : String

pub record ListRecipientsRequest : Type 0 where
  pub pagination : Option PaginationRequest
  pub group_id : String

pub record GetByGroupRequest : Type 0 where
  pub group_id : String
  pub only_unsent : Bool

pub record ImportRecipientsRequest : Type 0 where
  pub group_id : String
  pub recipients : List RecipientInput

pub record ListGroupsCommand : Type 0 where
  pub page : ℕ
  pub limit : ℕ
  pub user_id : String

pub record CreateGroupCommand : Type 0 where
  pub name : String
  pub user_id : String

pub record DeleteGroupCommand : Type 0 where
  pub id : String

pub record ListRecipientsCommand : Type 0 where
  pub page : ℕ
  pub limit : ℕ
  pub group_id : String

pub record GetRecipientsByGroupCommand : Type 0 where
  pub group_id : String
  pub only_unsent : Bool

pub record ImportRecipientsCommand : Type 0 where
  pub group_id : String
  pub recipients : List RecipientInputDto

pub record MarkAsSentCommand : Type 0 where
  pub recipient_ids : List String

pub record ResetSendStatusCommand : Type 0 where
  pub group_id : String
