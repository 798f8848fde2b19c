-- ===== src/Http/Breaker/Laws.antt =====
-- One call through the circuit breaker.
use email_platform_services.Common.{
  ℕ, ◌+◌, ◌≤◌, ◌<◌, ◌≡◌, String, true, false, some, ◌⊎◌, inl, inr, arith, Outcome, ok, throws,
  Thrown, circuit_open_error, Outcome-cases, Option-cases,
}
use email_platform_services.Http.Types.{CbOptions, closed, opened}
use email_platform_services.Http.Breaker.{
  Opossum, Adapter, Shared, on_failure, state, relabel, fire,
}

-- The counter stays below the threshold.
abbrev pub IsCounting : {B : Type 0} → CbOptions → Adapter B → Type 0
IsCounting opts a = a.consecutive_failures < opts.consecutive_threshold

module _ (lib : Opossum) where
  settle-trip : (b : lib.Breaker) → lib.settle (lib.trip b) ≡ lib.trip b
  settle-trip b = lib.settle_opened _ (lib.trip_opened b)

  module _ (opts : CbOptions) where
    pub on_failure-IsCounting :
        (a : Adapter lib.Breaker)
        → 0 < opts.consecutive_threshold
        → IsCounting opts (on_failure lib opts a)
    unfolding on_failure
    on_failure-IsCounting a h = ground arith

    -- A failure opens the circuit, with a fresh count, or only counts.
    pub on_failure-cases :
        (a : Adapter lib.Breaker)
        → ((on_failure lib opts a
              ≡ record { breaker = lib.trip a.breaker; consecutive_failures = 0 })
            × ((lib.is_half_open a.breaker ≡ true)
                ⊎ (opts.consecutive_threshold ≤ a.consecutive_failures + 1)))
          ⊎ ((on_failure lib opts a
                ≡ record a { consecutive_failures = a.consecutive_failures + 1 })
              × (lib.is_half_open a.breaker ≡ false)
              × (a.consecutive_failures + 1 < opts.consecutive_threshold))
    unfolding on_failure
    on_failure-cases a = ground arith

    on_failure_half_open :
        (a : Adapter lib.Breaker)
        → lib.is_half_open a.breaker ≡ true
        → on_failure lib opts a ≡ record { breaker = lib.trip a.breaker; consecutive_failures = 0 }
    unfolding on_failure
    on_failure_half_open a h = rw h

module _ (lib : Opossum) (show : ℕ → String) (opts : CbOptions) (api : String) {R W : Type 0}
    (inner : Shared lib.Breaker W → Outcome R × Shared lib.Breaker W)
    (s : Shared lib.Breaker W) where
  -- While the circuit is open a call does not run its action, throws `CircuitOpenError` and
  -- changes nothing.
  pub fire_opened :
      lib.is_opened s.adapter.breaker ≡ true
      → fire lib show opts api inner s ≡ (throws (circuit_open_error api), s)
  unfolding fire
  fire_opened e = rw (lib.start_opened _ e, fire) (ground arith)

  -- The state in which an admitted call runs its action.
  abbrev pub admitted : lib.Breaker → Shared lib.Breaker W
  admitted b = record s { adapter = record (s.adapter) { breaker = b } }

  -- The state after a call whose action left the adapter `a`, and the breaker of it settled.
  abbrev pub settled : Adapter lib.Breaker → W → Shared lib.Breaker W
  settled a w = record { adapter = record a { breaker = lib.settle a.breaker }; world = w }

  module _ (b : lib.Breaker) (started : lib.start s.adapter.breaker ≡ some b) where
    pub fire_ok :
        (r : R)
        → (inner (admitted b)).0 ≡ ok r
        → let s' = (inner (admitted b)).1 in
          fire lib show opts api inner s
          ≡ (ok r, settled (record (s'.adapter) { consecutive_failures = 0 }) s'.world)
    unfolding fire
    fire_ok r e = rw (started, fire) (ground arith)

    pub fire_throws :
        (err : Thrown)
        → (inner (admitted b)).0 ≡ throws err
        → let s' = (inner (admitted b)).1 in
          let s'' = settled (on_failure lib opts s'.adapter) s'.world in
          fire lib show opts api inner s
          ≡ (throws (relabel lib show api s''.adapter.breaker err), s'')
    unfolding fire
    fire_throws err e = rw (started, fire) (ground arith)

    -- A call that was let through and whose action fails, with the circuit then half open, reopens
    -- it with a fresh count, and throws `CircuitOpenError` in place of its own error.
    pub fire_probe_fails :
        (err : Thrown)
        → (inner (admitted b)).0 ≡ throws err
        → lib.is_half_open (inner (admitted b)).1.adapter.breaker ≡ true
        → let (r, s') = fire lib show opts api inner s in
          (r ≡ throws (circuit_open_error api))
          × (state lib s'.adapter ≡ record { cb = opened; consecutive_failures = 0 })
    unfolding state relabel
    fire_probe_fails err e half =
        let a = (inner (admitted b)).1.adapter in
        let shut = lib.trip_opened a.breaker in
        rw (fire_throws err e, on_failure_half_open lib opts a half, settle-trip lib a.breaker)
          (ground (arith, shut))

    -- A call that was let through and whose action succeeds, with the circuit then half open,
    -- closes it with a fresh count, and its value is passed on.
    pub fire_probe_succeeds :
        (r : R)
        → (inner (admitted b)).0 ≡ ok r
        → lib.is_half_open (inner (admitted b)).1.adapter.breaker ≡ true
        → let (r', s') = fire lib show opts api inner s in
          (r' ≡ ok r) × (state lib s'.adapter ≡ record { cb = closed; consecutive_failures = 0 })
    unfolding state
    fire_probe_succeeds r e half =
        let (not_open, not_half) = lib.settle_half_open _ half in
        rw (fire_ok r e) (ground (arith, not_open, not_half))

  -- With a positive threshold the counter is below it after every call, if it was so before.
  pub fire-IsCounting :
      0 < opts.consecutive_threshold
      → IsCounting opts s.adapter
      → IsCounting opts (fire lib show opts api inner s).1.adapter
  unfolding fire
  fire-IsCounting pos h = elim (Option-cases (lib.start s.adapter.breaker)) [
    | inl none_started ↦ rw (none_started, fire) h
    | inr (b, started) ↦ elim (Outcome-cases (inner (admitted b)).0) [
      | inl (r, e) ↦ rw (fire_ok b started r e) pos
      | inr (err, e) ↦ rw (fire_throws b started err e) (on_failure-IsCounting lib opts _ pos)
    ]
  ]
