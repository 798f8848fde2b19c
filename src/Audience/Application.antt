-- ===== src/Audience/Application.antt =====
-- apps/audience/src/application/use-cases and services, and the bindings of
-- infrastructure/inbound/grpc/grpc.module.ts. The use cases are those of the source: none is
-- implemented yet, and each throws. The services are written over any use cases.
use email_platform_services.Common.{String, List, Outcome, answer, not_implemented}
use email_platform_services.Paging.{PageOf}
use email_platform_services.Audience.Messages.{
  GroupResult, RecipientResult, ImportRecipientsResult, ListGroupsCommand, CreateGroupCommand,
  DeleteGroupCommand, ListRecipientsCommand, GetRecipientsByGroupCommand, ImportRecipientsCommand,
  MarkAsSentCommand, ResetSendStatusCommand,
}
use email_platform_services.Audience.Controller.{Ports}

pub data RecipientLifecycleStatus : Type 0 where
  sent pending : RecipientLifecycleStatus

pub data RecipientSelector : Type 0 where
  by_ids : (recipient_ids : List String) → RecipientSelector
  by_group : (group_id : String) → RecipientSelector

-- The `execute` methods of the use cases.
pub record UseCases (S : Type 0) : Type 0 where
  pub list_groups : ListGroupsCommand → S → Outcome (PageOf GroupResult) × S
  pub create_group : CreateGroupCommand → S → Outcome GroupResult × S
  pub delete_group : DeleteGroupCommand → S → Outcome (Unit {0}) × S
  pub list_recipients : ListRecipientsCommand → S → Outcome (PageOf RecipientResult) × S
  pub get_recipients_by_group : GetRecipientsByGroupCommand → S → Outcome (List RecipientResult) × S
  pub import_recipients : ImportRecipientsCommand → S → Outcome ImportRecipientsResult × S
  pub transition_recipients_status :
      RecipientSelector → RecipientLifecycleStatus → S → Outcome (Unit {0}) × S

module _ {S : Type 0} where
  unfoldable pub list_groups_use_case : ListGroupsCommand → S → Outcome (PageOf GroupResult) × S
  list_groups_use_case cmd = not_implemented "ListGroupsUseCase"

  unfoldable pub create_group_use_case : CreateGroupCommand → S → Outcome GroupResult × S
  create_group_use_case cmd = not_implemented "CreateGroupUseCase"

  unfoldable pub delete_group_use_case : DeleteGroupCommand → S → Outcome (Unit {0}) × S
  delete_group_use_case cmd = not_implemented "DeleteGroupUseCase"

  unfoldable pub list_recipients_use_case :
      ListRecipientsCommand → S → Outcome (PageOf RecipientResult) × S
  list_recipients_use_case cmd = not_implemented "ListRecipientsUseCase"

  unfoldable pub get_recipients_by_group_use_case :
      GetRecipientsByGroupCommand → S → Outcome (List RecipientResult) × S
  get_recipients_by_group_use_case cmd = not_implemented "GetRecipientsByGroupUseCase"

  unfoldable pub import_recipients_use_case :
      ImportRecipientsCommand → S → Outcome ImportRecipientsResult × S
  import_recipients_use_case cmd = not_implemented "ImportRecipientsUseCase"

  unfoldable pub transition_recipients_status_use_case :
      RecipientSelector → RecipientLifecycleStatus → S → Outcome (Unit {0}) × S
  transition_recipients_status_use_case selector status =
      not_implemented "TransitionRecipientsStatusUseCase"

  abbrev pub use_cases : UseCases S
  use_cases = record {
    list_groups = list_groups_use_case;
    create_group = create_group_use_case;
    delete_group = delete_group_use_case;
    list_recipients = list_recipients_use_case;
    get_recipients_by_group = get_recipients_by_group_use_case;
    import_recipients = import_recipients_use_case;
    transition_recipients_status = transition_recipients_status_use_case;
  }

module _ {S : Type 0} (cases : UseCases S) where
  unfoldable pub list_groups_service : ListGroupsCommand → S → Outcome (PageOf GroupResult) × S
  list_groups_service cmd = cases.list_groups cmd

  unfoldable pub create_group_service : CreateGroupCommand → S → Outcome GroupResult × S
  create_group_service cmd = cases.create_group cmd

  unfoldable pub delete_group_service : DeleteGroupCommand → S → Outcome (Unit {0}) × S
  delete_group_service cmd = cases.delete_group cmd

  unfoldable pub list_recipients_service :
      ListRecipientsCommand → S → Outcome (PageOf RecipientResult) × S
  list_recipients_service cmd = cases.list_recipients cmd

  unfoldable pub get_recipients_by_group_service :
      GetRecipientsByGroupCommand → S → Outcome (List RecipientResult) × S
  get_recipients_by_group_service cmd = cases.get_recipients_by_group cmd

  unfoldable pub import_recipients_service :
      ImportRecipientsCommand → S → Outcome ImportRecipientsResult × S
  import_recipients_service cmd = cases.import_recipients cmd

  unfoldable pub mark_as_sent_service : MarkAsSentCommand → S → Outcome (Unit {0}) × S
  mark_as_sent_service cmd s =
      answer (λ done. tt) (cases.transition_recipients_status (by_ids cmd.recipient_ids) sent s)

  unfoldable pub reset_send_status_service : ResetSendStatusCommand → S → Outcome (Unit {0}) × S
  reset_send_status_service cmd s =
      answer (λ done. tt) (cases.transition_recipients_status (by_group cmd.group_id) pending s)

  -- The ports that the controller is bound to.
  abbrev pub bound : Ports S
  bound = record {
    list_groups = list_groups_service;
    create_group = create_group_service;
    delete_group = delete_group_service;
    list_recipients = list_recipients_service;
    get_recipients_by_group = get_recipients_by_group_service;
    import_recipients = import_recipients_service;
    mark_as_sent = mark_as_sent_service;
    reset_send_status = reset_send_status_service;
  }
