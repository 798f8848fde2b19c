-- ===== src/Contracts/Codec/Loop.antt =====
-- The loop of `decode` ends, and its result does not depend on how many rounds it was given.
use email_platform_services.Common.{
  ℕ, zero, suc, ◌+◌, ◌≤◌, ◌<◌, ◌≡◌, refl, sym, ◌∙◌, subst, true, false, ◌==◌, ◌/◌, ◌%◌, ltb, ltb→lt,
  Option, none, some, List, [], ◌∷◌, All, ◌⊎◌, inl, inr, Bool-cases, Option-cases, Outcome-cases,
  ok, throws, Thrown, arith,
}
use email_platform_services.Contracts.Wire.{Writing, Reading}
use email_platform_services.Contracts.Codec.{
  Decoded, got, fails, settled, and_then, Case, Decoder, chosen, ends_group, decode_loop, decode,
  end_of,
}

module _ {writing : Writing} (reading : Reading writing) where
  open reading use {at}

  -- A value was decoded, further on in the bytes, or an error was thrown.
  abbrev pub Settles : {A : Type 0} → reading.Reader → Decoded (A × reading.Reader) → Type 0
  Settles {A} r d =
      ((a : A) × (q : reading.Reader) × (d ≡ got (a, q)) × (at r ≤ at q))
      ⊎ ((err : Thrown) × (d ≡ fails err))

  -- Each case of a switch settles.
  abbrev pub AllSettle : {M : Type 0} → List (Case M reading.Reader) → Type 0
  AllSettle {M} cases = All (λ c. (m : M) (r : reading.Reader) → Settles r (c.read m r)) cases

  chosen-Settles :
      {M : Type 0} (cases : List (Case M reading.Reader)) (tag : ℕ) (c : Case M reading.Reader)
      → AllSettle cases
      → chosen tag cases ≡ some c
      → (m : M) (r : reading.Reader) → Settles r (c.read m r)
  unfolding chosen
  chosen-Settles [] tag c total e = cc
  chosen-Settles {M} (own ∷ cases) tag c (here, later) e =
      elim (Bool-cases (own.number == tag / 8)) [
        | inl fits ↦ elim (Bool-cases (own.tag == tag)) [
          | inl same ↦
              let mine : some own ≡ some c = sym (rw (chosen, fits, same) refl) ∙ e in
              let equal : own ≡ c = cc in
              subst
                (λ (x : Case M reading.Reader).
                  (m : M) (r : reading.Reader) → Settles r (x.read m r))
                equal here
          | inr other ↦ let nothing : none ≡ some c = sym (rw (chosen, fits, other) refl) ∙ e in cc
        ]
        | inr other ↦ chosen-Settles cases tag c later (sym (rw (chosen, other) refl) ∙ e)
      ]

  module _ {M : Type 0} (cases : List (Case M reading.Reader)) where
    -- What one round does: the loop ends with this result, or goes on from there.
    abbrev Round : ℕ → M → reading.Reader → Type 0
    Round end m r =
        ((result : Decoded (M × reading.Reader)) × Settles r result
          × ((n : ℕ) → decode_loop reading cases (suc n) end m r ≡ result))
        ⊎ ((next : M) × (p : reading.Reader) × (at r < at p)
            × (at r < end)
            × ((n : ℕ)
                → decode_loop reading cases (suc n) end m r
                  ≡ decode_loop reading cases n end next p))

    module _ (end : ℕ) (m : M) (r : reading.Reader) where
      pub round_done :
          (n : ℕ) → ltb (at r) end ≡ false → decode_loop reading cases (suc n) end m r ≡ got (m, r)
      unfolding decode_loop
      round_done n over = rw (decode_loop, over) refl

      round_throws :
          (n : ℕ) (err : Thrown)
          → ltb (at r) end ≡ true
          → reading.uint32 r ≡ throws err
          → decode_loop reading cases (suc n) end m r ≡ fails err
      unfolding decode_loop and_then settled
      round_throws n err more thrown = rw (decode_loop, more, thrown, settled, and_then) refl

      module _ (tag : ℕ) (q : reading.Reader) (more : ltb (at r) end ≡ true)
          (tagged : reading.uint32 r ≡ ok (tag, q)) where
        pub round_field :
            (n : ℕ) (c : Case M reading.Reader) (next : M) (p : reading.Reader)
            → chosen tag cases ≡ some c
            → c.read m q ≡ got (next, p)
            → decode_loop reading cases (suc n) end m r ≡ decode_loop reading cases n end next p
        unfolding decode_loop and_then settled
        round_field n c next p found gave =
            rw (decode_loop, more, tagged, settled, and_then, found, gave) refl

        round_field_fails :
            (n : ℕ) (c : Case M reading.Reader) (err : Thrown)
            → chosen tag cases ≡ some c
            → c.read m q ≡ fails err
            → decode_loop reading cases (suc n) end m r ≡ fails err
        unfolding decode_loop and_then settled
        round_field_fails n c err found gave =
            rw (decode_loop, more, tagged, settled, and_then, found, gave) refl

        round_group :
            (n : ℕ)
            → chosen tag cases ≡ none
            → ends_group tag ≡ true
            → decode_loop reading cases (suc n) end m r ≡ got (m, q)
        unfolding decode_loop and_then settled
        round_group n unknown ends =
            rw (decode_loop, more, tagged, settled, and_then, unknown, ends) refl

        pub round_skip :
            (n : ℕ) (p : reading.Reader)
            → chosen tag cases ≡ none
            → ends_group tag ≡ false
            → reading.skip (tag % 8) q ≡ ok p
            → decode_loop reading cases (suc n) end m r ≡ decode_loop reading cases n end m p
        unfolding decode_loop and_then settled
        round_skip n p unknown goes skipped =
            rw (decode_loop, more, tagged, settled, and_then, unknown, goes, skipped) refl

        round_skip_fails :
            (n : ℕ) (err : Thrown)
            → chosen tag cases ≡ none
            → ends_group tag ≡ false
            → reading.skip (tag % 8) q ≡ throws err
            → decode_loop reading cases (suc n) end m r ≡ fails err
        unfolding decode_loop and_then settled
        round_skip_fails n err unknown goes thrown =
            rw (decode_loop, more, tagged, settled, and_then, unknown, goes, thrown) refl

    module _ (total : AllSettle cases) where
      tagged-Round :
          (end : ℕ) (m : M) (r q : reading.Reader) (tag : ℕ)
          → ltb (at r) end ≡ true
          → reading.uint32 r ≡ ok (tag, q)
          → Round end m r
      tagged-Round end m r q tag more tagged =
          let before = reading.uint32_goes_on r q tag tagged in
          let below : at r < end = ltb→lt _ _ more in
          elim (Option-cases (chosen tag cases)) [
            | inr (c, found) ↦ elim (chosen-Settles cases tag c total found m q) [
              | inl (next, p, gave, on) ↦ inr (
                next,
                p,
                omega arith,
                below,
                λ n. round_field end m r tag q more tagged n c next p found gave,
              )
              | inr (err, gave) ↦ inl (
                fails err,
                inr (err, refl),
                λ n. round_field_fails end m r tag q more tagged n c err found gave,
              )
            ]
            | inl unknown ↦ elim (Bool-cases (ends_group tag)) [
              | inl ends ↦ inl (
                got (m, q),
                inl (m, q, refl, omega arith),
                λ n. round_group end m r tag q more tagged n unknown ends,
              )
              | inr goes ↦ elim (Outcome-cases (reading.skip (tag % 8) q)) [
                | inl (p, skipped) ↦
                    let on = reading.skip_goes_on q p (tag % 8) skipped in
                    inr (
                      m,
                      p,
                      omega arith,
                      below,
                      λ n. round_skip end m r tag q more tagged n p unknown goes skipped,
                    )
                | inr (err, thrown) ↦ inl (
                  fails err,
                  inr (err, refl),
                  λ n. round_skip_fails end m r tag q more tagged n err unknown goes thrown,
                )
              ]
            ]
          ]

      round : (end : ℕ) (m : M) (r : reading.Reader) → Round end m r
      round end m r = elim (Bool-cases (ltb (at r) end)) [
        | inr over ↦ inl (got (m, r), inl (m, r, refl, omega arith), λ n. round_done end m r n over)
        | inl more ↦ elim (Outcome-cases (reading.uint32 r)) [
          | inl ((tag, q), tagged) ↦ tagged-Round end m r q tag more tagged
          | inr (err, thrown) ↦
              inl (fails err, inr (err, refl), λ n. round_throws end m r n err more thrown)
        ]
      ]

      Settles-on :
          (r p : reading.Reader) (d : Decoded (M × reading.Reader))
          → at r ≤ at p
          → Settles p d
          → Settles r d
      Settles-on r p d on (inl (a, q, e, further)) = inl (a, q, e, omega arith)
      Settles-on r p d on (inr (err, e)) = inr (err, e)

      -- With as many rounds as bytes are left, and one more, the loop settles.
      pub decode_loop-Settles :
          (n end : ℕ) (m : M) (r : reading.Reader)
          → end ≤ at r + n
          → Settles r (decode_loop reading cases (suc n) end m r)
      decode_loop-Settles zero end m r enough = elim (round end m r) [
        | inl (result, s, e) ↦ rw (e 0) s
        | inr (next, p, on, more, e) ↦ absurd (omega arith)
      ]
      decode_loop-Settles (suc n) end m r enough = elim (round end m r) [
        | inl (result, s, e) ↦ rw (e (suc n)) s
        | inr (next, p, on, more, e) ↦
            rw (e (suc n))
              (Settles-on r p _ (omega arith) (decode_loop-Settles n end next p (omega arith)))
      ]

      -- Enough rounds are as good as any others that are enough.
      pub decode_loop_enough :
          (n k end : ℕ) (m : M) (r : reading.Reader)
          → end ≤ at r + n
          → end ≤ at r + k
          → decode_loop reading cases (suc n) end m r ≡ decode_loop reading cases (suc k) end m r
      decode_loop_enough zero k end m r en ek = elim (round end m r) [
        | inl (result, s, e) ↦ e 0 ∙ sym (e k)
        | inr (next, p, on, more, e) ↦ absurd (omega arith)
      ]
      decode_loop_enough (suc n) zero end m r en ek = elim (round end m r) [
        | inl (result, s, e) ↦ e (suc n) ∙ sym (e 0)
        | inr (next, p, on, more, e) ↦ absurd (omega arith)
      ]
      decode_loop_enough (suc n) (suc k) end m r en ek = elim (round end m r) [
        | inl (result, s, e) ↦ e (suc n) ∙ sym (e (suc k))
        | inr (next, p, on, more, e) ↦
            e (suc n)
            ∙ decode_loop_enough n k end next p (omega arith) (omega arith)
            ∙ sym (e (suc k))
      ]

  module _ {M : Type 0} (message : Decoder M reading.Reader) where
    -- `decode` always ends: with a message, or with an error that a read threw; the rounds that it
    -- is given are enough, whatever the bytes are.
    pub decode-Settles :
        (length : Option ℕ) (r : reading.Reader)
        → AllSettle message.cases
        → Settles r (decode reading message length r)
    unfolding decode
    decode-Settles length r total =
        decode_loop-Settles message.cases total _ (end_of reading length r) message.base r
          (omega arith)
