-- ===== src/Contracts/Codec/Reads.antt =====
-- The reads of a case settle.
use email_platform_services.Common.{
  ℕ, ◌≤◌, ◌≡◌, refl, Option, some, inl, inr, Outcome, ok, throws, Outcome-cases, arith,
}
use email_platform_services.Contracts.Wire.{Writing, Reading}
use email_platform_services.Contracts.Codec.{Decoded, settled, and_then, read_value, read_message}
use email_platform_services.Contracts.Codec.Loop.{Settles}

-- A pair, without its parentheses.
infixr 4 ◌&◌
abbrev pub ◌&◌ : {A B : Type 0} → A → B → A × B
a & b = (a, b)

module _ {writing : Writing} (reading : Reading writing) where
  open reading use {at, Reader}

  pub settled-Settles :
      {A : Type 0} (o : Outcome (A × Reader)) (r : Reader)
      → ((q : Reader) (a : A) → o ≡ ok (a, q) → at r ≤ at q)
      → Settles reading r (settled o)
  unfolding settled
  settled-Settles (ok (a, q)) r goes_on = inl (a, q, refl, goes_on q a refl)
  settled-Settles (throws err) r goes_on = inr (err, refl)

  module _ {M A : Type 0} (put : M → A → M) where
    pub read_value-Settles :
        (read : Reader → Outcome (A × Reader))
        → ((r q : Reader) (a : A) → read r ≡ ok (a, q) → at r ≤ at q)
        → (m : M) (r : Reader) → Settles reading r (read_value reading read put m r)
    unfolding read_value and_then settled
    read_value-Settles read goes_on m r = elim (Outcome-cases (read r)) [
      | inl ((a, q), e) ↦ inl (put m a, q, rw (e, settled, and_then) refl, goes_on r q a e)
      | inr (err, e) ↦ inr (err, rw (e, settled, and_then) refl)
    ]

    pub read_message-Settles :
        (decode_it : Option ℕ → Reader → Decoded (A × Reader))
        → ((length : ℕ) (r : Reader) → Settles reading r (decode_it (some length) r))
        → (m : M) (r : Reader) → Settles reading r (read_message reading decode_it put m r)
    unfolding read_message and_then settled
    read_message-Settles decode_it settles m r = elim (Outcome-cases (reading.uint32 r)) [
      | inr (err, e) ↦ inr (err, rw (e, settled, and_then) refl)
      | inl ((length, q), e) ↦ elim (settles length q) [
        | inl (a, p, gave, on) ↦
            let before = reading.uint32_goes_on r q length e in
            inl (put m a, p, rw (e, settled, and_then, gave) refl, omega arith)
        | inr (err, gave) ↦ inr (err, rw (e, settled, and_then, gave) refl)
      ]
    ]
