-- ===== src/Audience/Controller.antt =====
-- apps/audience/src/infrastructure/inbound/grpc/audience.controller.ts: from a call's message to a
-- command, and from the result of the inbound port to the reply.
use email_platform_services.Common.{String, none, List, map, Outcome, answer}
use email_platform_services.Paging.{PageOf, ListOf, page_of, limit_of, list_reply}
use email_platform_services.Audience.Messages.{
  GroupResult, Group, RecipientResult, Recipient, RecipientInput, RecipientInputDto,
  ImportRecipientsResult, ImportResult, ListGroupsRequest, CreateGroupRequest,
  ListRecipientsRequest, GetByGroupRequest, ImportRecipientsRequest, ListGroupsCommand,
  CreateGroupCommand, DeleteGroupCommand, ListRecipientsCommand, GetRecipientsByGroupCommand,
  ImportRecipientsCommand, MarkAsSentCommand, ResetSendStatusCommand,
}

-- The inbound ports, over the state `S` of the service.
pub record Ports (S : Type 0) : Type 0 where
  pub list_groups : ListGroupsCommand → S → Outcome (PageOf GroupResult) × S
  pub create_group : CreateGroupCommand → S → Outcome GroupResult × S
  pub delete_group : DeleteGroupCommand → S → Outcome (Unit {0}) × S
  pub list_recipients : ListRecipientsCommand → S → Outcome (PageOf RecipientResult) × S
  pub get_recipients_by_group : GetRecipientsByGroupCommand → S → Outcome (List RecipientResult) × S
  pub import_recipients : ImportRecipientsCommand → S → Outcome ImportRecipientsResult × S
  pub mark_as_sent : MarkAsSentCommand → S → Outcome (Unit {0}) × S
  pub reset_send_status : ResetSendStatusCommand → S → Outcome (Unit {0}) × S

unfoldable pub group_reply : GroupResult → Group
group_reply result = record {
  id = result.id;
  name = result.name;
  recipient_count = result.recipient_count;
  user_id = result.user_id;
  created_at = result.created_at;
}

unfoldable pub recipient_reply : RecipientResult → Recipient
recipient_reply result = record {
  id = result.id;
  email = result.email;
  name = result.name;
  company = result.company;
  group_id = result.group_id;
  is_sent = result.is_sent;
  created_at = result.created_at;
}

unfoldable pub import_reply : ImportRecipientsResult → ImportResult
import_reply result = record {
  imported = result.imported;
  duplicates = result.duplicates;
  total = result.total;
}

unfoldable pub input_dto : RecipientInput → RecipientInputDto
input_dto input = record { email = input.email; name = input.name; company = input.company }

-- The reply to `getRecipientsByGroup`, which has no `pagination`.
unfoldable pub slice_reply : List RecipientResult → ListOf Recipient
unfolding recipient_reply
slice_reply recipients = record { items = map recipient_reply recipients; pagination = none }

module _ {S : Type 0} (ports : Ports S) where
  unfoldable pub list_groups : ListGroupsRequest → S → Outcome (ListOf Group) × S
  unfolding page_of limit_of list_reply group_reply
  list_groups req s =
      let cmd : ListGroupsCommand = record {
        page = page_of req.pagination;
        limit = limit_of req.pagination;
        user_id = req.user_id;
      } in
      answer (list_reply group_reply) (ports.list_groups cmd s)

  unfoldable pub create_group : CreateGroupRequest → S → Outcome Group × S
  unfolding group_reply
  create_group req s =
      answer group_reply (ports.create_group (record { name = req.name; user_id = req.user_id }) s)

  unfoldable pub delete_group : String → S → Outcome (Unit {0}) × S
  delete_group id s = answer (λ done. tt) (ports.delete_group (record { id = id }) s)

  unfoldable pub list_recipients : ListRecipientsRequest → S → Outcome (ListOf Recipient) × S
  unfolding page_of limit_of list_reply recipient_reply
  list_recipients req s =
      let cmd : ListRecipientsCommand = record {
        page = page_of req.pagination;
        limit = limit_of req.pagination;
        group_id = req.group_id;
      } in
      answer (list_reply recipient_reply) (ports.list_recipients cmd s)

  unfoldable pub get_recipients_by_group : GetByGroupRequest → S → Outcome (ListOf Recipient) × S
  unfolding slice_reply
  get_recipients_by_group req s =
      let cmd : GetRecipientsByGroupCommand = record {
        group_id = req.group_id;
        only_unsent = req.only_unsent;
      } in
      answer slice_reply (ports.get_recipients_by_group cmd s)

  unfoldable pub import_recipients : ImportRecipientsRequest → S → Outcome ImportResult × S
  unfolding import_reply input_dto
  import_recipients req s =
      let cmd : ImportRecipientsCommand = record {
        group_id = req.group_id;
        recipients = map input_dto req.recipients;
      } in
      answer import_reply (ports.import_recipients cmd s)

  unfoldable pub mark_as_sent : List String → S → Outcome (Unit {0}) × S
  mark_as_sent recipient_ids s =
      answer (λ done. tt) (ports.mark_as_sent (record { recipient_ids = recipient_ids }) s)

  unfoldable pub reset_send_status : String → S → Outcome (Unit {0}) × S
  reset_send_status group_id s =
      answer (λ done. tt) (ports.reset_send_status (record { group_id = group_id }) s)
