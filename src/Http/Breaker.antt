-- ===== src/Http/Breaker.antt =====
-- packages/foundation/src/external/http/circuit-breaker/opossum-circuit-breaker.adapter.ts: the
-- adapter that counts consecutive failures and drives an opossum breaker by hand. The opossum
-- package is a parameter with the documented behaviour that the adapter relies on.
pub mod Laws
pub mod Streak
pub mod Runs
pub mod Events
use Prim.Native.String.{◌++◌ as append}
use text.Mathlib.Text.{find?}
use email_platform_services.Common.{
  ℕ, suc, ◌+◌, ◌≡◌, String, Bool, true, false, ◌||◌, Option, none, some, leb, if◌then◌else◌,
  Outcome, ok, throws, Thrown, http_error, timeout_error, network_error, circuit_open_error,
  native_error, not_error, undefined, plain_error,
}
use email_platform_services.Http.Types.{CbOptions, CbState, closed, half_open, opened, CircuitState}

-- An opossum breaker made with `timeout: false` and `errorFilter: () => true`. `start` is what
-- `fire` does before the action: `none` when it rejects without running it. `settle` is what it
-- does when the action settles: every settlement counts as a success. `elapse` is the reset timer.
pub record Opossum : Type 1 where
  pub Breaker : Type 0
  pub is_opened : Breaker → Bool
  pub is_half_open : Breaker → Bool
  pub start : Breaker → Option Breaker
  pub settle : Breaker → Breaker
  pub trip : Breaker → Breaker
  pub elapse : Breaker → Breaker
  pub rejection : Thrown
  pub exclusive : (b : Breaker) → is_opened b ≡ true → is_half_open b ≡ false
  pub start_opened : (b : Breaker) → is_opened b ≡ true → start b ≡ none
  pub start_closed : (b : Breaker) → is_opened b ≡ false → is_half_open b ≡ false → start b ≡ some b
  pub start_half_open :
      (b b' : Breaker) → is_half_open b ≡ true → start b ≡ some b' → is_half_open b' ≡ true
  pub settle_opened : (b : Breaker) → is_opened b ≡ true → settle b ≡ b
  pub settle_closed : (b : Breaker) → is_half_open b ≡ false → settle b ≡ b
  pub settle_half_open :
      (b : Breaker)
      → is_half_open b ≡ true
      → (is_opened (settle b) ≡ false) × (is_half_open (settle b) ≡ false)
  pub trip_opened : (b : Breaker) → is_opened (trip b) ≡ true
  pub elapse_opened : (b : Breaker) → is_opened b ≡ true → is_half_open (elapse b) ≡ true

abbrev pub breaker_open_message : String
breaker_open_message = "Breaker is open"

-- `err.message` of an `Error`; `show` prints a number as a template literal does.
unfoldable pub message : (ℕ → String) → Thrown → Option String
message show (http_error status url) =
    some (append "HTTP " (append (show status) (append " for " url)))
message show (timeout_error url timeout_ms) =
    some (append "Timed out after " (append (show timeout_ms) (append "ms for " url)))
message show (network_error url cause) = some (append "Network error for " url)
message show (circuit_open_error api) = some (append "Circuit open for " api)
message show (native_error e) = some e.message
message show (not_error text) = none
message show undefined = none

-- `err instanceof Error && err.message.includes(...)`.
unfoldable pub mentions_open : (ℕ → String) → Thrown → Bool
unfolding message
mentions_open show err = elim (message show err) [
  | none ↦ false
  | some text ↦ elim (find? text breaker_open_message) [ none ↦ false | some i ↦ true ]
]

pub record Adapter (Breaker : Type 0) : Type 0 where
  pub breaker : Breaker
  pub consecutive_failures : ℕ

-- The adapter with the rest of the program's state. A call may change both while it is in flight,
-- so whatever other calls do meanwhile is part of the action that is fired.
pub record Shared (Breaker World : Type 0) : Type 0 where
  pub adapter : Adapter Breaker
  pub world : World

module _ (lib : Opossum) where
  unfoldable pub state : Adapter lib.Breaker → CircuitState
  state a = record {
    cb =
        if lib.is_opened a.breaker
        then opened
        else (if lib.is_half_open a.breaker then half_open else closed);
    consecutive_failures = a.consecutive_failures;
  }

  -- The `catch` of `wrap`.
  unfoldable pub on_failure : CbOptions → Adapter lib.Breaker → Adapter lib.Breaker
  on_failure opts a =
      if lib.is_half_open a.breaker
      then record { breaker = lib.trip a.breaker; consecutive_failures = 0 }
      else (if leb opts.consecutive_threshold (a.consecutive_failures + 1)
          then record { breaker = lib.trip a.breaker; consecutive_failures = 0 }
          else record a { consecutive_failures = a.consecutive_failures + 1 })

  -- The `catch` of `fire`.
  unfoldable pub relabel : (ℕ → String) → String → lib.Breaker → Thrown → Thrown
  unfolding mentions_open
  relabel show api b err =
      if lib.is_opened b || mentions_open show err then circuit_open_error api else err

module _ (lib : Opossum) (show : ℕ → String) (opts : CbOptions) (api : String) {R W : Type 0}
    (inner : Shared lib.Breaker W → Outcome R × Shared lib.Breaker W) where
  unfoldable pub wrap : Shared lib.Breaker W → Outcome R × Shared lib.Breaker W
  unfolding on_failure
  wrap s =
      let (settled, s') = inner s in
      elim settled [
        | ok r ↦ (ok r, record s' { adapter = record (s'.adapter) { consecutive_failures = 0 } })
        | throws err ↦ (throws err, record s' { adapter = on_failure lib opts s'.adapter })
      ]

  unfoldable pub fire : Shared lib.Breaker W → Outcome R × Shared lib.Breaker W
  unfolding wrap relabel
  fire s = elim (lib.start s.adapter.breaker) [
    | none ↦ (throws (relabel lib show api s.adapter.breaker lib.rejection), s)
    | some b ↦
        let (settled, s') = wrap (record s { adapter = record (s.adapter) { breaker = b } }) in
        let done = lib.settle s'.adapter.breaker in
        let s'' = record s' { adapter = record (s'.adapter) { breaker = done } } in
        elim settled [
          | ok r ↦ (ok r, s'')
          | throws err ↦ (throws (relabel lib show api done err), s'')
        ]
  ]
