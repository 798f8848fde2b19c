-- ===== src/Resilience.antt =====
-- packages/foundation/src/external/resilience/retry-connect.ts: connecting to a dependency at
-- start-up, with exponential waits.
pub mod Laws
use Prim.Native.String.{◌++◌ as append}
use email_platform_services.Common.{
  ℕ, zero, suc, ◌+◌, ◌-◌, ◌*◌, ◌^◌, min, String, Bool, true, false, Option, none, some, get_or,
  List, [], ◌∷◌, ◌==◌, if◌then◌else◌, Outcome, ok, throws, Thrown, plain_error,
}
use email_platform_services.Http.Errors.{to_text}
use email_platform_services.Http.Breaker.{message}

pub record RetryOptions : Type 0 where
  pub max_retries : ℕ
  pub base_delay_ms : ℕ
  pub max_delay_ms : ℕ

abbrev pub retry_defaults : RetryOptions
retry_defaults = record { max_retries = 5; base_delay_ms = 200; max_delay_ms = 5000 }

-- `Partial<RetryOptions>`.
pub record PartialOptions : Type 0 where
  pub max_retries : Option ℕ
  pub base_delay_ms : Option ℕ
  pub max_delay_ms : Option ℕ

-- `{ ...RETRY_DEFAULTS, ...options }`.
unfoldable pub with_defaults : PartialOptions → RetryOptions
with_defaults o = record {
  max_retries = get_or o.max_retries retry_defaults.max_retries;
  base_delay_ms = get_or o.base_delay_ms retry_defaults.base_delay_ms;
  max_delay_ms = get_or o.max_delay_ms retry_defaults.max_delay_ms;
}

-- `jitter` is `Math.floor(Math.random() * baseDelayMs)` of this attempt.
unfoldable pub connect_delay : RetryOptions → ℕ → ℕ → ℕ
connect_delay o jitter attempt = min (o.base_delay_ms * 2 ^ (attempt - 1)) o.max_delay_ms + jitter

pub data Event : Type 0 where
  connected : Event
  waiting : (attempt max_retries retry_in_ms : ℕ) → Event

-- The settled promise, the state, and what was logged; a `sleep` of the same length follows each
-- `waiting`.
pub record Connection (A S : Type 0) : Type 0 where
  pub outcome : Outcome A
  pub state : S
  pub events : List Event

-- `error instanceof Error ? error.message : String(error)`; `show` prints a number as a template
-- literal does.
unfoldable pub error_text : (ℕ → String) → Thrown → String
unfolding message to_text
error_text show err = get_or (message show err) (to_text err)

unfoldable pub failed_after : (ℕ → String) → String → RetryOptions → String
failed_after show name o =
    append "Failed to connect to "
      (append name (append " after " (append (show o.max_retries) " attempts")))

-- `connect` may change the state `S`, and `jitter` gives the draw of each
-- attempt.
module _ {A S : Type 0} (show : ℕ → String) (name : String) (connect : S → Outcome A × S)
    (o : RetryOptions) (jitter : ℕ → ℕ) where
  -- The rounds that are left, and the loop's `attempt`.
  unfoldable pub connect_from : ℕ → ℕ → S → Connection A S
  connect_from zero attempt s = record {
    outcome = throws (plain_error (failed_after show name o));
    state = s;
    events = [];
  }
  connect_from (suc left) attempt s =
      let (settled, s') = connect s in
      elim settled [
        | ok result ↦ record { outcome = ok result; state = s'; events = connected ∷ [] }
        | throws err ↦ elim (attempt == o.max_retries) [
          | true ↦ record {
            outcome = throws (
                plain_error
                  (append (failed_after show name o) (append ": " (error_text show err))));
            state = s';
            events = [];
          }
          | false ↦
              let rest = connect_from left (attempt + 1) s' in
              record rest {
                events =
                    waiting attempt o.max_retries (connect_delay o (jitter attempt) attempt)
                    ∷ rest.events;
              }
        ]
      ]

  unfoldable pub retry_connect : S → Connection A S
  unfolding connect_from
  retry_connect s = connect_from o.max_retries 1 s
