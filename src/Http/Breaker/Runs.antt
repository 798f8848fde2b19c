-- ===== src/Http/Breaker/Runs.antt =====
-- Interleaved calls through one breaker: the changes of the adapter as a step relation, which calls
-- in flight may take in any order, and the way back from an open circuit.
use email_platform_services.Common.{
  ℕ, ◌<◌, ◌≡◌, ap, ◌∙◌, String, true, some, Outcome, ok, inl, inr, Outcome-cases, Option-cases,
}
use email_platform_services.Http.Types.{CbOptions, closed}
use email_platform_services.Http.Breaker.{Opossum, Adapter, Shared, on_failure, state, fire}
use email_platform_services.Http.Breaker.Laws.{
  IsCounting, on_failure-IsCounting, admitted, fire_ok, fire_throws, fire_probe_succeeds,
}

module _ (lib : Opossum) (opts : CbOptions) where
  -- The adapter once opossum has seen a call settle.
  abbrev pub seen : Adapter lib.Breaker → Adapter lib.Breaker
  seen a = record a { breaker = lib.settle a.breaker }

  -- A call is let through, or settles; or the reset timer elapses.
  pub data Step : Adapter lib.Breaker → Adapter lib.Breaker → Type 0 where
    starts :
        (a : Adapter lib.Breaker) (b : lib.Breaker)
        → lib.start a.breaker ≡ some b
        → Step a (record a { breaker = b })
    succeeds : (a : Adapter lib.Breaker) → Step a (seen (record a { consecutive_failures = 0 }))
    fails : (a : Adapter lib.Breaker) → Step a (seen (on_failure lib opts a))
    elapses : (a : Adapter lib.Breaker) → Step a (record a { breaker = lib.elapse a.breaker })

  pub data Reach : Adapter lib.Breaker → Adapter lib.Breaker → Type 0 where
    here : (a : Adapter lib.Breaker) → Reach a a
    after : (a b c : Adapter lib.Breaker) → Step a b → Reach b c → Reach a c

  pub Reach-append : (a b c : Adapter lib.Breaker) → Reach a b → Reach b c → Reach a c
  Reach-append _ _ c (here a) rest = rest
  Reach-append _ _ c (after a d b step run) rest = after a d c step (Reach-append d b c run rest)

  Step-IsCounting :
      (a b : Adapter lib.Breaker)
      → 0 < opts.consecutive_threshold
      → Step a b
      → IsCounting opts a
      → IsCounting opts b
  Step-IsCounting _ _ pos (starts a b started) h = h
  Step-IsCounting _ _ pos (succeeds a) h = pos
  Step-IsCounting _ _ pos (fails a) h = on_failure-IsCounting lib opts a pos
  Step-IsCounting _ _ pos (elapses a) h = h

  -- Whatever calls are in flight and in whichever order they start and settle, a counter that was
  -- below a positive threshold stays below it.
  pub Reach-IsCounting :
      (a b : Adapter lib.Breaker)
      → 0 < opts.consecutive_threshold
      → Reach a b
      → IsCounting opts a
      → IsCounting opts b
  Reach-IsCounting _ _ pos (here a) h = h
  Reach-IsCounting _ _ pos (after a b c step run) h =
      Reach-IsCounting b c pos run (Step-IsCounting a b pos step h)

module _ (lib : Opossum) (show : ℕ → String) (opts : CbOptions) (api : String) {R W : Type 0}
    (inner : Shared lib.Breaker W → Outcome R × Shared lib.Breaker W) where
  -- A call moves the adapter by steps alone, when its action does, which may be other calls that
  -- come in meanwhile.
  pub fire-Reach :
      (s : Shared lib.Breaker W)
      → ((t : Shared lib.Breaker W) → Reach lib opts t.adapter (inner t).1.adapter)
      → Reach lib opts s.adapter (fire lib show opts api inner s).1.adapter
  unfolding fire
  fire-Reach s moves = elim (Option-cases (lib.start s.adapter.breaker)) [
    | inl none_started ↦ rw (none_started, fire) (here s.adapter)
    | inr (b, started) ↦
        let t = admitted lib show opts api inner s b in
        let a = (inner t).1.adapter in
        let entry : Step lib opts s.adapter t.adapter = starts s.adapter b started in
        let done : Reach lib opts s.adapter a = after s.adapter t.adapter a entry (moves t) in
        elim (Outcome-cases (inner t).0) [
          | inl (r, e) ↦
              rw (fire_ok lib show opts api inner s b started r e)
                (Reach-append lib opts s.adapter a _ done (after a _ _ (succeeds a) (here _)))
          | inr (err, e) ↦
              rw (fire_throws lib show opts api inner s b started err e)
                (Reach-append lib opts s.adapter a _ done (after a _ _ (fails a) (here _)))
        ]
  ]

  -- The state after the reset timer.
  abbrev pub elapsed : Shared lib.Breaker W → Shared lib.Breaker W
  elapsed s = record s { adapter = record (s.adapter) { breaker = lib.elapse s.adapter.breaker } }

  -- An open circuit closes again, with a fresh count, by the first call that is let through after
  -- the reset timer, when the call's action succeeds and leaves the breaker alone.
  pub opened_recovers :
      (s : Shared lib.Breaker W) (b : lib.Breaker) (r : R)
      → lib.is_opened s.adapter.breaker ≡ true
      → lib.start (lib.elapse s.adapter.breaker) ≡ some b
      → (inner (admitted lib show opts api inner s b)).0 ≡ ok r
      → (inner (admitted lib show opts api inner s b)).1.adapter
        ≡ (admitted lib show opts api inner s b).adapter
      → ((fire lib show opts api inner (elapsed s)).0 ≡ ok r)
        × (state lib (fire lib show opts api inner (elapsed s)).1.adapter
            ≡ record { cb = closed; consecutive_failures = 0 })
  opened_recovers s b r shut started succeeded alone =
      let half = lib.start_half_open _ b (lib.elapse_opened _ shut) started in
      fire_probe_succeeds lib show opts api inner (elapsed s) b started r succeeded
        (ap (λ a. lib.is_half_open a.breaker) alone ∙ half)
