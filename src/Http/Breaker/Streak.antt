-- ===== src/Http/Breaker/Streak.antt =====
-- A run of failing calls through a closed circuit.
use email_platform_services.Common.{
  ℕ, zero, suc, ◌+◌, ◌<◌, ◌≡◌, refl, ap, ◌∙◌, sym, String, false, arith, some, Outcome, throws,
  Thrown, circuit_open_error,
}
use native.Mathlib.Nat.{add-zero}
use email_platform_services.Http.Types.{CbOptions, closed, opened}
use email_platform_services.Http.Breaker.{
  Opossum, Adapter, Shared, mentions_open, on_failure, state, relabel, fire,
}
use email_platform_services.Http.Breaker.Laws.{fire_throws, admitted}

-- What a failing action leaves, when no other call touches the adapter meanwhile.
pub record FailsAlone (lib : Opossum) (show : ℕ → String) {R W : Type 0}
    (inner : Shared lib.Breaker W → Outcome R × Shared lib.Breaker W)
    (error : Shared lib.Breaker W → Thrown) : Type 0 where
  pub fails : (s : Shared lib.Breaker W) → (inner s).0 ≡ throws (error s)
  pub keeps : (s : Shared lib.Breaker W) → (inner s).1.adapter ≡ s.adapter
  pub unmarked : (s : Shared lib.Breaker W) → mentions_open show (error s) ≡ false

module _ (lib : Opossum) (show : ℕ → String) (opts : CbOptions) (api : String) {R W : Type 0}
    (inner : Shared lib.Breaker W → Outcome R × Shared lib.Breaker W) where
  -- The state after so many calls.
  abbrev pub after : ℕ → Shared lib.Breaker W → Shared lib.Breaker W
  after zero s = s
  after (suc n) s = after n (fire lib show opts api inner s).1

  module _ (error : Shared lib.Breaker W → Thrown) (f : FailsAlone lib show inner error)
      (b : lib.Breaker) (not_open : lib.is_opened b ≡ false)
      (not_half : lib.is_half_open b ≡ false) where
    abbrev counted : ℕ → Adapter lib.Breaker
    counted k = record { breaker = b; consecutive_failures = k }

    abbrev tripped : Adapter lib.Breaker
    tripped = record { breaker = lib.trip b; consecutive_failures = 0 }

    on_failure_below :
        (k : ℕ)
        → suc k < opts.consecutive_threshold
        → on_failure lib opts (counted k) ≡ counted (suc k)
    unfolding on_failure
    on_failure_below k h = ground (arith, not_half)

    on_failure_last :
        (k : ℕ) → suc k ≡ opts.consecutive_threshold → on_failure lib opts (counted k) ≡ tripped
    unfolding on_failure
    on_failure_last k h = ground (arith, not_half)

    module _ (s : Shared lib.Breaker W) (k : ℕ) (reached : s.adapter ≡ counted k) where
      started : lib.start s.adapter.breaker ≡ some b
      started = ap (λ a. lib.start a.breaker) reached ∙ lib.start_closed b not_open not_half

      same : admitted lib show opts api inner s b ≡ s
      same =
          ap (λ x. record s { adapter = record (s.adapter) { breaker = x } })
            (sym (ap (λ a. a.breaker) reached))

      left :
          on_failure lib opts (inner (admitted lib show opts api inner s b)).1.adapter
          ≡ on_failure lib opts (counted k)
      left = ap (on_failure lib opts) (ap (λ t. (inner t).1.adapter) same ∙ f.keeps s ∙ reached)

      fire_failed :
          (a : Adapter lib.Breaker)
          → on_failure lib opts (counted k) ≡ a
          → lib.settle a.breaker ≡ a.breaker
          → ((fire lib show opts api inner s).1.adapter ≡ a)
            × ((fire lib show opts api inner s).0
                ≡ throws (relabel lib show api a.breaker (error s)))
      fire_failed a e done =
          let call = fire_throws lib show opts api inner s b started _ (f.fails _) in
          rw (call, left, e, done, same) (refl, refl)

      fire_below :
          suc k < opts.consecutive_threshold
          → ((fire lib show opts api inner s).1.adapter ≡ counted (suc k))
            × ((fire lib show opts api inner s).0 ≡ throws (error s))
      unfolding relabel
      fire_below h =
          let (left, thrown) =
            fire_failed _ (on_failure_below k h) (lib.settle_closed b not_half) in
          (left, thrown ∙ ground (arith, not_open, f.unmarked s))

      fire_last :
          suc k ≡ opts.consecutive_threshold
          → ((fire lib show opts api inner s).1.adapter ≡ tripped)
            × ((fire lib show opts api inner s).0 ≡ throws (circuit_open_error api))
      unfolding relabel
      fire_last h =
          let (left, thrown) =
            fire_failed _ (on_failure_last k h) (lib.settle_opened _ (lib.trip_opened b)) in
          (left, thrown ∙ ground (arith, lib.trip_opened b))

    streak_counts :
        (n k : ℕ) (s : Shared lib.Breaker W)
        → s.adapter ≡ counted k
        → k + n < opts.consecutive_threshold
        → (after n s).adapter ≡ counted (k + n)
    streak_counts zero k s e h = rw (add-zero k) e
    streak_counts (suc n) k s e h =
        let (next, _) = fire_below s k e (omega arith) in
        streak_counts n (suc k) _ next (omega arith) ∙ ap counted (omega arith)

    -- From a closed circuit with a fresh count, failing calls with no other call in between count
    -- up and pass their errors on as long as there are fewer than `consecutiveThreshold` of them.
    pub streak_below :
        (n : ℕ) (s : Shared lib.Breaker W)
        → s.adapter ≡ record { breaker = b; consecutive_failures = 0 }
        → suc n < opts.consecutive_threshold
        → (state lib (after (suc n) s).adapter
            ≡ record { cb = closed; consecutive_failures = suc n })
          × ((fire lib show opts api inner (after n s)).0 ≡ throws (error (after n s)))
    unfolding state
    streak_below n s e h =
        let now : (after n s).adapter ≡ counted n =
          streak_counts n 0 s e (omega arith) ∙ ap counted (omega arith) in
        let next : (after (suc n) s).adapter ≡ counted (suc n) =
          streak_counts (suc n) 0 s e (omega arith) ∙ ap counted (omega arith) in
        (rw next (ground (arith, not_open, not_half)), (fire_below (after n s) n now h).1)

    -- From a closed circuit with a fresh count, when every call's action fails and leaves the breaker's
    -- adapter alone, so that no other call overlaps it, the failing call that makes it
    -- `consecutiveThreshold` in a row opens the circuit with a fresh count, and throws
    -- `CircuitOpenError` in place of its own error.
    pub streak_opens :
        (n : ℕ) (s : Shared lib.Breaker W)
        → s.adapter ≡ record { breaker = b; consecutive_failures = 0 }
        → suc n ≡ opts.consecutive_threshold
        → (state lib (fire lib show opts api inner (after n s)).1.adapter
            ≡ record { cb = opened; consecutive_failures = 0 })
          × ((fire lib show opts api inner (after n s)).0 ≡ throws (circuit_open_error api))
    unfolding state
    streak_opens n s e h =
        let now : (after n s).adapter ≡ counted n =
          streak_counts n 0 s e (omega arith) ∙ ap counted (omega arith) in
        let (left, thrown) = fire_last (after n s) n now h in
        (rw left (ground (arith, lib.trip_opened b)), thrown)
