-- ===== src/Sender/Application.antt =====
-- apps/sender/src/application/use-cases and services, and the bindings of
-- infrastructure/inbound/grpc/grpc.module.ts. The use cases are those of the source: none is
-- implemented yet, and each throws. The services are written over any use cases.
use email_platform_services.Paging.{PageOf}
use email_platform_services.Common.{String, Outcome, answer, not_implemented}
use email_platform_services.Sender.Messages.{
  CampaignResult, RunnerResult, MessageResult, MacrosResult, ListCampaignsCommand,
  ListRunnersCommand, ListMessagesCommand, ListMacrosCommand, CreateCampaignCommand,
  CreateRunnerCommand, CreateMessageCommand, GetCampaignCommand, PauseCampaignCommand,
  ResumeCampaignCommand,
}
use email_platform_services.Sender.Controller.{Ports}

-- The entity `Campaign` of domain/entities.
pub record CampaignEntity : Type 0 where
  pub id : String
  pub name : String
  pub status : String

pub data CampaignLifecycleStatus : Type 0 where
  paused active : CampaignLifecycleStatus

-- The `execute` methods of the use cases.
pub record UseCases (S : Type 0) : Type 0 where
  pub list_campaigns : ListCampaignsCommand → S → Outcome (PageOf CampaignResult) × S
  pub get_campaign : GetCampaignCommand → S → Outcome CampaignResult × S
  pub create_campaign : CreateCampaignCommand → S → Outcome CampaignResult × S
  pub list_runners : ListRunnersCommand → S → Outcome (PageOf RunnerResult) × S
  pub create_runner : CreateRunnerCommand → S → Outcome RunnerResult × S
  pub list_messages : ListMessagesCommand → S → Outcome (PageOf MessageResult) × S
  pub create_message : CreateMessageCommand → S → Outcome MessageResult × S
  pub list_macros : ListMacrosCommand → S → Outcome (PageOf MacrosResult) × S
  pub transition_campaign_status : String → CampaignLifecycleStatus → S → Outcome CampaignEntity × S

module _ {S : Type 0} where
  unfoldable pub list_campaigns_use_case :
      ListCampaignsCommand → S → Outcome (PageOf CampaignResult) × S
  list_campaigns_use_case cmd = not_implemented "ListCampaignsUseCase"

  unfoldable pub get_campaign_use_case : GetCampaignCommand → S → Outcome CampaignResult × S
  get_campaign_use_case cmd = not_implemented "GetCampaignUseCase"

  unfoldable pub create_campaign_use_case : CreateCampaignCommand → S → Outcome CampaignResult × S
  create_campaign_use_case cmd = not_implemented "CreateCampaignUseCase"

  unfoldable pub list_runners_use_case : ListRunnersCommand → S → Outcome (PageOf RunnerResult) × S
  list_runners_use_case cmd = not_implemented "ListRunnersUseCase"

  unfoldable pub create_runner_use_case : CreateRunnerCommand → S → Outcome RunnerResult × S
  create_runner_use_case cmd = not_implemented "CreateRunnerUseCase"

  unfoldable pub list_messages_use_case :
      ListMessagesCommand → S → Outcome (PageOf MessageResult) × S
  list_messages_use_case cmd = not_implemented "ListMessagesUseCase"

  unfoldable pub create_message_use_case : CreateMessageCommand → S → Outcome MessageResult × S
  create_message_use_case cmd = not_implemented "CreateMessageUseCase"

  unfoldable pub list_macros_use_case : ListMacrosCommand → S → Outcome (PageOf MacrosResult) × S
  list_macros_use_case cmd = not_implemented "ListMacrosUseCase"

  unfoldable pub transition_campaign_status_use_case :
      String → CampaignLifecycleStatus → S → Outcome CampaignEntity × S
  transition_campaign_status_use_case id status = not_implemented "TransitionCampaignStatusUseCase"

  abbrev pub use_cases : UseCases S
  use_cases = record {
    list_campaigns = list_campaigns_use_case;
    get_campaign = get_campaign_use_case;
    create_campaign = create_campaign_use_case;
    list_runners = list_runners_use_case;
    create_runner = create_runner_use_case;
    list_messages = list_messages_use_case;
    create_message = create_message_use_case;
    list_macros = list_macros_use_case;
    transition_campaign_status = transition_campaign_status_use_case;
  }

-- The projection that the pause and resume services return.
unfoldable pub projection : CampaignEntity → CampaignResult
projection updated = record {
  id = updated.id;
  name = updated.name;
  status = updated.status;
  message_id = "";
  runner_id = "";
  group_id = "";
  user_id = "";
  sent_count = 0;
  failed_count = 0;
  created_at = "";
  updated_at = "";
}

module _ {S : Type 0} (cases : UseCases S) where
  unfoldable pub list_campaigns_service :
      ListCampaignsCommand → S → Outcome (PageOf CampaignResult) × S
  list_campaigns_service cmd = cases.list_campaigns cmd

  unfoldable pub get_campaign_service : GetCampaignCommand → S → Outcome CampaignResult × S
  get_campaign_service cmd = cases.get_campaign cmd

  unfoldable pub create_campaign_service : CreateCampaignCommand → S → Outcome CampaignResult × S
  create_campaign_service cmd = cases.create_campaign cmd

  unfoldable pub list_runners_service : ListRunnersCommand → S → Outcome (PageOf RunnerResult) × S
  list_runners_service cmd = cases.list_runners cmd

  unfoldable pub create_runner_service : CreateRunnerCommand → S → Outcome RunnerResult × S
  create_runner_service cmd = cases.create_runner cmd

  unfoldable pub list_messages_service :
      ListMessagesCommand → S → Outcome (PageOf MessageResult) × S
  list_messages_service cmd = cases.list_messages cmd

  unfoldable pub create_message_service : CreateMessageCommand → S → Outcome MessageResult × S
  create_message_service cmd = cases.create_message cmd

  unfoldable pub list_macros_service : ListMacrosCommand → S → Outcome (PageOf MacrosResult) × S
  list_macros_service cmd = cases.list_macros cmd

  unfoldable pub pause_campaign_service : PauseCampaignCommand → S → Outcome CampaignResult × S
  unfolding projection
  pause_campaign_service cmd s =
      answer projection (cases.transition_campaign_status cmd.id paused s)

  unfoldable pub resume_campaign_service : ResumeCampaignCommand → S → Outcome CampaignResult × S
  unfolding projection
  resume_campaign_service cmd s =
      answer projection (cases.transition_campaign_status cmd.id active s)

  -- The ports that the controller is bound to.
  abbrev pub bound : Ports S
  bound = record {
    list_campaigns = list_campaigns_service;
    get_campaign = get_campaign_service;
    create_campaign = create_campaign_service;
    pause_campaign = pause_campaign_service;
    resume_campaign = resume_campaign_service;
    list_runners = list_runners_service;
    create_runner = create_runner_service;
    list_messages = list_messages_service;
    create_message = create_message_service;
    list_macros = list_macros_service;
  }
