-- ===== src/Tests/Apps.antt =====
-- Examples for the sender's service and for the vendors' clients.
use email_platform_services.Paging.{PageOf}
use email_platform_services.Common.{false, ℕ, ◌≤◌, refl, none, [], ◌∷◌, ok}
use email_platform_services.Http.Types.{closed}
use email_platform_services.Sender.Messages.{CampaignResult}
use email_platform_services.Sender.Controller.{Ports}
use email_platform_services.Sender.Application.{bound, use_cases}
use email_platform_services.Audience
use email_platform_services.Audience.Messages.{RecipientResult}
use email_platform_services.Audience.Controller.{get_recipients_by_group}
use email_platform_services.Vendors.{LookupAppRequest, send_message, send_email, get_app_metadata}
use email_platform_services.Vendors.Laws.{sends_once}
use email_platform_services.Tests.Platform.{
  doubles, opossum, show, two_failures, start_in, answering, unavailable, endpoint,
}

abbrev campaign : CampaignResult
campaign = record {
  id = "1";
  name = "Launch";
  status = "active";
  message_id = "m";
  runner_id = "r";
  group_id = "g";
  user_id = "u";
  sent_count = 10;
  failed_count = 2;
  created_at = "2026";
  updated_at = "2026";
}

abbrev one_page : PageOf CampaignResult
one_page = record { items = campaign ∷ []; total = 1; page = 1; limit = 20; pages = 1 }

abbrev stored : Ports ℕ
stored = record (bound use_cases) { list_campaigns = λ cmd s. (ok one_page, s) }

sends_once_example :
    let req : LookupAppRequest = record { app_id = "7"; country = none } in
    let host = answering (ok unavailable) in
    ((send_message opossum show two_failures host endpoint doubles
        (λ i. 4)
        (λ res. ok res.status)
        "t"
        "{}"
        (start_in closed)).1.world
      ≤ 1)
    × ((send_email opossum show two_failures host endpoint doubles
          (λ i. 4)
          (λ res. ok res.status)
          "k"
          "{}"
          (start_in closed)).1.world
        ≤ 1)
    × ((get_app_metadata opossum show two_failures host endpoint doubles
          (λ i. 4)
          (λ res. ok res.status)
          (λ d. "appId=7")
          "k"
          req
          (start_in closed)).1.world
        ≤ 3)
sends_once_example =
    sends_once opossum show two_failures (answering (ok unavailable)) endpoint doubles (λ i. 4)
      (λ res. ok res.status) (λ w. w) (record { fetch = λ url init s. refl; emit = λ line s. refl })
      "t" "k" "{}" (λ d. "appId=7") (record { app_id = "7"; country = none }) (start_in closed)

abbrev first : RecipientResult
first = record {
  id = "1";
  email = "a@b";
  name = "A";
  company = "B";
  group_id = "g";
  is_sent = false;
  created_at = "2026";
}

abbrev group : Audience.Controller.Ports ℕ
group = record (Audience.Application.bound Audience.Application.use_cases) {
  get_recipients_by_group = λ cmd s. (ok (first ∷ []), s);
}
