-- ===== src/Notifier.antt =====
-- apps/notifier/src: the use case and the consumer of events, which the source has not implemented,
-- and the sender of notifications over the Telegram client. `JSON.parse` of an envelope is a
-- parameter, and so is `JSON.stringify` of the request.
pub mod Laws
use email_platform_services.Http.Retry.{Doubles}
use email_platform_services.Common.{
  ℕ, String, Option, none, some, Dict, Outcome, ok, throws, answer, not_implemented, native_error,
  false,
}
use email_platform_services.Http.Types.{CbOptions}
use email_platform_services.Http.Breaker.{Opossum, Shared}
use email_platform_services.Http.Executor.{Response, Host, Endpoint}
use email_platform_services.Vendors.{send_message}

pub record Notification : Type 0 where
  pub id : String
  pub event_type : String
  pub payload : String
  pub sent_at : Option ℕ

-- `SendMessageRequest`; the chat is an id or a name, here its JSON text.
pub record SendMessageRequest : Type 0 where
  pub chat_id : Option String
  pub text : Option String

-- `HandleEventUseCase.execute`; an event's payload is an object.
unfoldable pub handle_event_use_case :
    {S : Type 0} → String → Dict String → S → Outcome (Unit {0}) × S
handle_event_use_case event_type payload = not_implemented "HandleEventUseCase"

-- `EventConsumer.onEvent`, which throws a `NotImplementedException`.
unfoldable pub on_event : {S : Type 0} → String → Dict String → S → Outcome (Unit {0}) × S
on_event event_type payload s = (
  throws (
      native_error (record {
        name = "NotImplementedException";
        message = "RabbitMQ event handling not yet implemented";
        is_type_error = false;
        cause = none;
      })),
  s,
)

module _ (lib : Opossum) (show : ℕ → String) (cb : CbOptions) {W J : Type 0}
    (host : Host (Shared lib.Breaker W)) (endpoint : Endpoint) (doubles : Doubles) (random : ℕ → ℕ)
    (json : Response → Outcome J) (parse : String → Outcome SendMessageRequest)
    (stringify : SendMessageRequest → String) where
  -- `TelegramNotificationAdapter.send`.
  unfoldable pub send :
      String → Notification → Shared lib.Breaker W → Outcome (Unit {0}) × Shared lib.Breaker W
  send bot_token notification s = elim (parse notification.payload) [
    | throws err ↦ (throws err, s)
    | ok envelope ↦
        let req : SendMessageRequest = record {
          chat_id = envelope.chat_id;
          text = envelope.text;
        } in
        answer (λ response. tt)
          (send_message lib show cb host endpoint doubles random json bot_token (stringify req) s)
  ]
