-- ===== src/Sender/Laws.antt =====
-- What a call of the sender's service is answered with.
use email_platform_services.Paging.{
  ListOf, PageOf, PaginationRequest, limit_of, list_reply, meta_of, page_of,
}
use email_platform_services.Common.{
  String, ◌≡◌, refl, ap, Option, none, some, List, [], ◌∷◌, map, ok, throws, plain_error, answer,
  answer-ok,
}
use email_platform_services.Rpc.Exceptions.{internal}
use email_platform_services.Rpc.Filters.{catch_rpc, payload, error}
use email_platform_services.Sender.Messages.{CampaignResult, Campaign, ListCampaignsRequest}
use email_platform_services.Sender.Controller.{
  Ports, campaign_reply, list_campaigns, handle, Call, list_campaigns_call, get_campaign_call,
  create_campaign_call, pause_campaign_call, resume_campaign_call, list_runners_call,
  create_runner_call, list_messages_call, create_message_call, list_macros_call,
}
use email_platform_services.Sender.Application.{
  use_cases, bound, list_campaigns_use_case, get_campaign_use_case, create_campaign_use_case,
  list_runners_use_case, create_runner_use_case, list_messages_use_case, create_message_use_case,
  list_macros_use_case, transition_campaign_status_use_case, list_campaigns_service,
  get_campaign_service, create_campaign_service, list_runners_service, create_runner_service,
  list_messages_service, create_message_service, list_macros_service, pause_campaign_service,
  resume_campaign_service,
}

-- The result that a campaign in a reply stands for.
abbrev pub result_of : Campaign → CampaignResult
result_of c = record {
  id = c.id;
  name = c.name;
  status = c.status;
  message_id = c.message_id;
  runner_id = c.runner_id;
  group_id = c.group_id;
  user_id = c.user_id;
  sent_count = c.sent_count;
  failed_count = c.failed_count;
  created_at = c.created_at;
  updated_at = c.updated_at;
}

map-result_of : (rs : List CampaignResult) → map result_of (map campaign_reply rs) ≡ rs
unfolding campaign_reply
map-result_of [] = refl
map-result_of (r ∷ rs) = ap (◌∷◌ r) (map-result_of rs)

page_of-eq : (p : Option PaginationRequest) → page_of p ≡ elim p [ none ↦ 1 | some q ↦ q.page ]
unfolding page_of
page_of-eq none = refl
page_of-eq (some q) = refl

limit_of-eq : (p : Option PaginationRequest) → limit_of p ≡ elim p [ none ↦ 20 | some q ↦ q.limit ]
unfolding limit_of
limit_of-eq none = refl
limit_of-eq (some q) = refl

-- When the port gives a page for the requested page and limit, or for page 1 with 20 entries
-- where the call names none, the reply is that page: each result as it is, in the same order,
-- with the totals.
pub list_campaigns-result_of :
    {S : Type 0} (ports : Ports S) (req : ListCampaignsRequest) (s : S)
    (result : PageOf CampaignResult)
    → (ports.list_campaigns
        (record {
          page = elim req.pagination [ none ↦ 1 | some p ↦ p.page ];
          limit = elim req.pagination [ none ↦ 20 | some p ↦ p.limit ];
          user_id = req.user_id;
        })
        s).0
      ≡ ok result
    → (reply : ListOf Campaign) × ((list_campaigns ports req s).0 ≡ ok reply)
      × (map result_of reply.items ≡ result.items)
      × (reply.pagination
          ≡ some (record {
            total = result.total;
            page = result.page;
            limit = result.limit;
            pages = result.pages;
          }))
unfolding list_campaigns list_reply meta_of
list_campaigns-result_of ports req s result e = (
  list_reply campaign_reply result,
  ap (λ p. p.0) (answer-ok (list_reply campaign_reply) _ result (rw (page_of-eq, limit_of-eq) e)),
  map-result_of result.items,
  refl,
)

-- As long as the use cases are those of the source, every call but the health check fails without
-- a change of state, and the filter answers it with an internal error and the fixed text.
pub handle_not_implemented :
    {S : Type 0} (call : Call) (s : S) (stack : String)
    → (text : String) × (handle (bound use_cases) call s ≡ (throws (plain_error text), s))
      × ((catch_rpc (error text stack)).0
          ≡ payload (record { code = internal; message = "Internal server error"; details = none }))
unfolding handle answer catch_rpc list_campaigns_use_case get_campaign_use_case
    create_campaign_use_case list_runners_use_case create_runner_use_case list_messages_use_case
    create_message_use_case list_macros_use_case transition_campaign_status_use_case
    list_campaigns_service get_campaign_service create_campaign_service list_runners_service
    create_runner_service list_messages_service create_message_service list_macros_service
    pause_campaign_service resume_campaign_service
handle_not_implemented (list_campaigns_call req) s stack = (_, refl, refl)
handle_not_implemented (get_campaign_call id) s stack = (_, refl, refl)
handle_not_implemented (create_campaign_call req) s stack = (_, refl, refl)
handle_not_implemented (pause_campaign_call id) s stack = (_, refl, refl)
handle_not_implemented (resume_campaign_call id) s stack = (_, refl, refl)
handle_not_implemented (list_runners_call p) s stack = (_, refl, refl)
handle_not_implemented (create_runner_call req) s stack = (_, refl, refl)
handle_not_implemented (list_messages_call p) s stack = (_, refl, refl)
handle_not_implemented (create_message_call req) s stack = (_, refl, refl)
handle_not_implemented (list_macros_call p) s stack = (_, refl, refl)
