-- ===== src/Notifier/Laws.antt =====
-- How often a notification reaches Telegram.
use email_platform_services.Http.Retry.{Doubles}
use email_platform_services.Common.{
  ℕ, ◌+◌, ◌≤◌, ◌≡◌, refl, ◌⊎◌, inl, inr, String, none, Outcome, ok, throws, Thrown, answer,
  Outcome-cases,
}
use email_platform_services.Http.Types.{CbOptions}
use email_platform_services.Http.Breaker.{Opossum, Shared}
use email_platform_services.Http.Executor.{Response, Host, Endpoint}
use email_platform_services.Http.Client.Laws.{CountsFetches}
use email_platform_services.Vendors.{send_message}
use email_platform_services.Vendors.Laws.{sends_once}
use email_platform_services.Notifier.{Notification, SendMessageRequest, send}

answer-state : {A B S : Type 0} (reply : A → B) (p : Outcome A × S) → (answer reply p).1 ≡ p.1
unfolding answer
answer-state reply (ok a, s) = refl
answer-state reply (throws err, s) = refl

module _ (lib : Opossum) (show : ℕ → String) (cb : CbOptions) {W J : Type 0}
    (host : Host (Shared lib.Breaker W)) (endpoint : Endpoint) (doubles : Doubles) (random : ℕ → ℕ)
    (json : Response → Outcome J) (parse : String → Outcome SendMessageRequest)
    (stringify : SendMessageRequest → String) (fetches : W → ℕ)
    (c : CountsFetches host fetches) where
  message_once :
      (bot_token body : String) (s : Shared lib.Breaker W)
      → fetches
          (send_message lib show cb host endpoint doubles random json bot_token body s).1.world
        ≤ fetches s.world + 1
  message_once bot_token body s =
      (sends_once lib show cb host endpoint doubles random json fetches c bot_token "" body
        (λ params. "") (record { app_id = ""; country = none }) s).0

  -- A notification whose payload is no envelope is refused with the error of the parser, and
  -- nothing is called; any other is sent with at most one fetch. (No other call overlaps.)
  pub send_once :
      (bot_token : String) (notification : Notification) (s : Shared lib.Breaker W)
      → let sent =
          send lib show cb host endpoint doubles random json parse stringify bot_token notification
            s in
        ((err : Thrown) × (parse notification.payload ≡ throws err) × (sent ≡ (throws err, s)))
        ⊎ ((envelope : SendMessageRequest) × (parse notification.payload ≡ ok envelope)
            × (fetches sent.1.world ≤ fetches s.world + 1))
  unfolding send
  send_once bot_token notification s = elim (Outcome-cases (parse notification.payload)) [
    | inl (envelope, e) ↦ inr (envelope, e, rw (send, e, answer-state) (message_once bot_token _ s))
    | inr (err, e) ↦ inl (err, e, rw (send, e) refl)
  ]
