-- ===== src/Sender/Controller.antt =====
-- apps/sender/src/infrastructure/inbound/grpc/sender.controller.ts: from a call's message to a
-- command, and from the result of the inbound port to the reply.
use email_platform_services.Paging.{
  ListOf, PageOf, PaginationRequest, limit_of, list_reply, page_of,
}
use email_platform_services.Common.{String, Option, Outcome, ok, answer}
use email_platform_services.Sender.Messages.{
  CampaignResult, Campaign, RunnerResult, Runner, MessageResult, Message, MacrosResult, Macros,
  ListCampaignsRequest, CreateCampaignRequest, CreateRunnerRequest, CreateMessageRequest,
  ListCampaignsCommand, ListRunnersCommand, ListMessagesCommand, ListMacrosCommand,
  CreateCampaignCommand, CreateRunnerCommand, CreateMessageCommand, GetCampaignCommand,
  PauseCampaignCommand, ResumeCampaignCommand,
}

-- The inbound ports, over the state `S` of the service.
pub record Ports (S : Type 0) : Type 0 where
  pub list_campaigns : ListCampaignsCommand → S → Outcome (PageOf CampaignResult) × S
  pub get_campaign : GetCampaignCommand → S → Outcome CampaignResult × S
  pub create_campaign : CreateCampaignCommand → S → Outcome CampaignResult × S
  pub pause_campaign : PauseCampaignCommand → S → Outcome CampaignResult × S
  pub resume_campaign : ResumeCampaignCommand → S → Outcome CampaignResult × S
  pub list_runners : ListRunnersCommand → S → Outcome (PageOf RunnerResult) × S
  pub create_runner : CreateRunnerCommand → S → Outcome RunnerResult × S
  pub list_messages : ListMessagesCommand → S → Outcome (PageOf MessageResult) × S
  pub create_message : CreateMessageCommand → S → Outcome MessageResult × S
  pub list_macros : ListMacrosCommand → S → Outcome (PageOf MacrosResult) × S

unfoldable pub campaign_reply : CampaignResult → Campaign
campaign_reply result = record {
  id = result.id;
  name = result.name;
  status = result.status;
  message_id = result.message_id;
  runner_id = result.runner_id;
  group_id = result.group_id;
  user_id = result.user_id;
  sent_count = result.sent_count;
  failed_count = result.failed_count;
  created_at = result.created_at;
  updated_at = result.updated_at;
}

unfoldable pub runner_reply : RunnerResult → Runner
runner_reply result = record {
  id = result.id;
  name = result.name;
  proxy_url = result.proxy_url;
  sender_email = result.sender_email;
  sender_name = result.sender_name;
  interval_seconds = result.interval_seconds;
  cooldown_seconds = result.cooldown_seconds;
  created_at = result.created_at;
}

unfoldable pub message_reply : MessageResult → Message
message_reply result = record {
  id = result.id;
  subject = result.subject;
  body = result.body;
  user_id = result.user_id;
  created_at = result.created_at;
}

unfoldable pub macros_reply : MacrosResult → Macros
macros_reply result = record {
  id = result.id;
  name = result.name;
  template = result.template;
  created_at = result.created_at;
}

module _ {S : Type 0} (ports : Ports S) where
  unfoldable pub health_check : S → Outcome String × S
  health_check s = (ok "SERVING", s)

  unfoldable pub list_campaigns : ListCampaignsRequest → S → Outcome (ListOf Campaign) × S
  unfolding page_of limit_of list_reply campaign_reply
  list_campaigns req s =
      let cmd : ListCampaignsCommand = record {
        page = page_of req.pagination;
        limit = limit_of req.pagination;
        user_id = req.user_id;
      } in
      answer (list_reply campaign_reply) (ports.list_campaigns cmd s)

  unfoldable pub get_campaign : String → S → Outcome Campaign × S
  unfolding campaign_reply
  get_campaign id s = answer campaign_reply (ports.get_campaign (record { id = id }) s)

  unfoldable pub create_campaign : CreateCampaignRequest → S → Outcome Campaign × S
  unfolding campaign_reply
  create_campaign req s =
      let cmd : CreateCampaignCommand = record {
        name = req.name;
        message_id = req.message_id;
        runner_id = req.runner_id;
        group_id = req.group_id;
        user_id = req.user_id;
      } in
      answer campaign_reply (ports.create_campaign cmd s)

  unfoldable pub pause_campaign : String → S → Outcome Campaign × S
  unfolding campaign_reply
  pause_campaign id s = answer campaign_reply (ports.pause_campaign (record { id = id }) s)

  unfoldable pub resume_campaign : String → S → Outcome Campaign × S
  unfolding campaign_reply
  resume_campaign id s = answer campaign_reply (ports.resume_campaign (record { id = id }) s)

  unfoldable pub list_runners : Option PaginationRequest → S → Outcome (ListOf Runner) × S
  unfolding page_of limit_of list_reply runner_reply
  list_runners pagination s =
      let cmd : ListRunnersCommand = record {
        page = page_of pagination;
        limit = limit_of pagination;
      } in
      answer (list_reply runner_reply) (ports.list_runners cmd s)

  unfoldable pub create_runner : CreateRunnerRequest → S → Outcome Runner × S
  unfolding runner_reply
  create_runner req s =
      let cmd : CreateRunnerCommand = record {
        name = req.name;
        proxy_url = req.proxy_url;
        sender_email = req.sender_email;
        sender_name = req.sender_name;
        interval_seconds = req.interval_seconds;
        cooldown_seconds = req.cooldown_seconds;
      } in
      answer runner_reply (ports.create_runner cmd s)

  unfoldable pub list_messages : Option PaginationRequest → S → Outcome (ListOf Message) × S
  unfolding page_of limit_of list_reply message_reply
  list_messages pagination s =
      let cmd : ListMessagesCommand = record {
        page = page_of pagination;
        limit = limit_of pagination;
      } in
      answer (list_reply message_reply) (ports.list_messages cmd s)

  unfoldable pub create_message : CreateMessageRequest → S → Outcome Message × S
  unfolding message_reply
  create_message req s =
      let cmd : CreateMessageCommand = record {
        subject = req.subject;
        body = req.body;
        user_id = req.user_id;
      } in
      answer message_reply (ports.create_message cmd s)

  unfoldable pub list_macros : Option PaginationRequest → S → Outcome (ListOf Macros) × S
  unfolding page_of limit_of list_reply macros_reply
  list_macros pagination s =
      let cmd : ListMacrosCommand = record {
        page = page_of pagination;
        limit = limit_of pagination;
      } in
      answer (list_reply macros_reply) (ports.list_macros cmd s)

-- A call of one of the service's methods, but for the health check.
pub data Call : Type 0 where
  list_campaigns_call : ListCampaignsRequest → Call
  get_campaign_call : (id : String) → Call
  create_campaign_call : CreateCampaignRequest → Call
  pause_campaign_call : (id : String) → Call
  resume_campaign_call : (id : String) → Call
  list_runners_call : Option PaginationRequest → Call
  create_runner_call : CreateRunnerRequest → Call
  list_messages_call : Option PaginationRequest → Call
  create_message_call : CreateMessageRequest → Call
  list_macros_call : Option PaginationRequest → Call

-- `await call;`, with the reply left aside.
abbrev pub forget : {A S : Type 0} → Outcome A × S → Outcome (Unit {0}) × S
forget p = answer (λ reply. tt) p

-- What the controller does with a call, its reply aside.
unfoldable pub handle : {S : Type 0} → Ports S → Call → S → Outcome (Unit {0}) × S
unfolding list_campaigns get_campaign create_campaign pause_campaign resume_campaign list_runners
    create_runner list_messages create_message list_macros
handle ports (list_campaigns_call req) s = forget (list_campaigns ports req s)
handle ports (get_campaign_call id) s = forget (get_campaign ports id s)
handle ports (create_campaign_call req) s = forget (create_campaign ports req s)
handle ports (pause_campaign_call id) s = forget (pause_campaign ports id s)
handle ports (resume_campaign_call id) s = forget (resume_campaign ports id s)
handle ports (list_runners_call p) s = forget (list_runners ports p s)
handle ports (create_runner_call req) s = forget (create_runner ports req s)
handle ports (list_messages_call p) s = forget (list_messages ports p s)
handle ports (create_message_call req) s = forget (create_message ports req s)
handle ports (list_macros_call p) s = forget (list_macros ports p s)
