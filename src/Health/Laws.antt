-- ===== src/Health/Laws.antt =====
-- What the readiness of a service says of what it depends on.
use email_platform_services.Common.{
  ℕ, ◌==◌, ◌≡◌, refl, ap, sym, ◌∙◌, String, Bool, true, false, Outcome, ok, throws, arith,
  if◌then◌else◌,
}
use email_platform_services.Health.Indicators.{
  up, down, IndicatorResult, up_or_down, serving, up_result, down_result,
}
use email_platform_services.Health.Controllers.{
  HealthCheckResult, IsUp, Terminus, readiness, parser_readiness, notifier_readiness,
}

-- A dependency that answers when it is asked in this state.
abbrev pub AnswersIn : {S A : Type 0} → (S → Outcome A × S) → S → Type 0
AnswersIn {S} {A} ask s = (answer : A) × ((ask s).0 ≡ ok answer)

pub up_or_down-up :
    {A : Type 0} (key message : String) (o : Outcome A)
    → IsUp (up_or_down key message o)
    → ((answer : A) × (o ≡ ok answer)) × (up_or_down key message o ≡ ok (up_result key))
unfolding up_or_down
up_or_down-up key message (ok answer) is_up = ((answer, refl), refl)
up_or_down-up key message (throws err) (result, gave, is_up) =
    let same : down_result key message ≡ result = cc in
    let clash : down ≡ up = ap (λ r. r.status) same ∙ is_up in ground arith

pub up_or_down-ok :
    {A : Type 0} (key message : String) (o : Outcome A)
    → (answer : A) × (o ≡ ok answer)
    → IsUp (up_or_down key message o)
unfolding up_or_down
up_or_down-ok key message o (answer, e) = (up_result key, rw (e) refl, refl)

status_up :
    (key : String) (b : Bool) (result : IndicatorResult)
    → (if b then up_result key else down_result key "grpc health unreachable") ≡ result
    → result.status ≡ up
    → (b ≡ true) × (result ≡ up_result key)
status_up key true result gave is_up = (refl, sym gave)
status_up key false result gave is_up =
    let clash : down ≡ up = ap (λ r. r.status) gave ∙ is_up in ground arith

pub serving-up :
    (key : String) (o : Outcome ℕ)
    → IsUp (serving key o)
    → (o ≡ ok 1) × (serving key o ≡ ok (up_result key))
unfolding serving
serving-up key (ok status) (result, gave, is_up) =
    let (one, same) = status_up key (status == 1) result (cc) is_up in
    (ground arith, gave ∙ ap ok same)
serving-up key (throws err) (result, gave, is_up) =
    let same : down_result key "grpc health unreachable" ≡ result = cc in
    let clash : down ≡ up = ap (λ r. r.status) same ∙ is_up in ground arith

-- The services behind the gateway.
pub data Service : Type 0 where
  auth sender audience parser notifier : Service

module _ {S A B C : Type 0} (health : Terminus S) (query : S → Outcome A × S)
    (ping : S → Outcome B × S) (head_bucket : S → Outcome C × S) where
  abbrev pub ready : Service → S → Outcome HealthCheckResult × S
  ready auth = readiness health query ping
  ready sender = readiness health query ping
  ready audience = readiness health query ping
  ready parser = parser_readiness health query head_bucket ping
  ready notifier = notifier_readiness health head_bucket ping

  -- What a service needs answers, one after another, from a state on.
  abbrev pub NeedsAnswer : Service → S → Type 0
  NeedsAnswer parser s =
      AnswersIn query s
      × AnswersIn head_bucket (query s).1
      × AnswersIn ping (head_bucket (query s).1).1
  NeedsAnswer notifier s = AnswersIn head_bucket s × AnswersIn ping (head_bucket s).1
  NeedsAnswer _ s = AnswersIn query s × AnswersIn ping (query s).1

  -- The state that they leave.
  abbrev pub asked : Service → S → S
  asked parser s = (ping (head_bucket (query s).1).1).1
  asked notifier s = (ping (head_bucket s).1).1
  asked _ s = (ping (query s).1).1

  abbrev IsReady : Service → S → Type 0
  IsReady service s = (given : HealthCheckResult) × ((ready service s).0 ≡ ok given)

  abbrev CanReply : Service → S → Type 0
  CanReply service s = NeedsAnswer service s × (health.is_shutting_down (asked service s) ≡ false)
