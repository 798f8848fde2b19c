-- ===== src/Contracts/Codec/Fields.antt =====
-- What a field writes is what its case reads.
use mathlib.Core.List.{append-nil, append_assoc}
use email_platform_services.Common.{
  ℕ, zero, suc, ◌+◌, ◌-◌, ◌%◌, ◌≤◌, ◌<◌, ◌≡◌, refl, sym, ap, ◌∙◌, subst, false, String, lt→ltb,
  Option, none, some, List, [], ◌++◌, length, length-append, Outcome, ok, throws, arith,
}
use email_platform_services.Contracts.Wire.{Bytes, Writing, Reading, Adds, IsUint32}
use email_platform_services.Contracts.Codec.{
  ◌>>=◌, Decoded, got, Case, chosen, ends_group, decode_loop,
}
use email_platform_services.Contracts.Codec.Loop.{
  AllSettle, round_field, round_skip, decode_loop_enough,
}

-- A predicate on what is there, if anything is.
abbrev pub AllOf : {A : Type 0} → (A → Type 0) → Option A → Type 0
AllOf P none = Unit
AllOf P (some a) = P a

pub >>=_assoc :
    {A B C : Type 0} (a : Outcome A) (f : A → Outcome B) (g : B → Outcome C)
    → a >>= f >>= g ≡ a >>= (λ x. f x >>= g)
unfolding ◌>>=◌
>>=_assoc (ok a) f g = refl
>>=_assoc (throws err) f g = refl

module _ {writing : Writing} (reading : Reading writing) where
  open writing use {Writer, written, outer}
  open reading use {at, rest}

  abbrev pub AddsTo : Writer → Bytes → Outcome Writer → Type 0
  AddsTo = Adds written outer

  -- A write whose bytes a read turns into this value.
  pub record Carried {A : Type 0} (write : Writer → Outcome Writer)
      (read : reading.Reader → Decoded (A × reading.Reader)) (a : A) : Type 0 where
    pub bytes : Bytes
    pub adds : (w : Writer) → AddsTo w bytes (write w)
    pub takes :
        (r : reading.Reader) (tail : Bytes)
        → rest r ≡ bytes ++ tail
        → (p : reading.Reader) × (read r ≡ got (a, p))
          × (rest p ≡ tail)
          × (at p ≡ at r + length bytes)

  abbrev pub run :
      {M : Type 0}
      → List (Case M reading.Reader)
      → ℕ
      → M
      → reading.Reader
      → Decoded (M × reading.Reader)
  run cases end m r = decode_loop reading cases (suc (end - at r)) end m r

  -- A write whose bytes the loop takes on its way from one message to another.
  pub record Writes {M : Type 0} (cases : List (Case M reading.Reader))
      (write : Writer → Outcome Writer) (m next : M) : Type 0 where
    pub bytes : Bytes
    pub adds : (w : Writer) → AddsTo w bytes (write w)
    pub takes :
        (end : ℕ) (r : reading.Reader) (tail : Bytes)
        → rest r ≡ bytes ++ tail
        → at r + length bytes ≤ end
        → (p : reading.Reader) × (run cases end m r ≡ run cases end next p)
          × (rest p ≡ tail)
          × (at p ≡ at r + length bytes)

  adds_both :
      (f g : Writer → Outcome Writer) (b c : Bytes)
      → ((w : Writer) → AddsTo w b (f w))
      → ((w : Writer) → AddsTo w c (g w))
      → (w : Writer) → AddsTo w (b ++ c) (f w >>= g)
  unfolding ◌>>=◌
  adds_both f g b c adds_b adds_c w =
      let first = adds_b w in
      let second = adds_c first.after in
      record {
        after = second.after;
        succeeds = rw (first.succeeds, ◌>>=◌) second.succeeds;
        written_after =
            rw (second.written_after, first.written_after) (append_assoc (written w) b c);
        outer_after = second.outer_after ∙ first.outer_after;
      }

  adds_nothing : (w : Writer) → AddsTo w [] (ok w)
  adds_nothing w = record {
    after = w;
    succeeds = refl;
    written_after = sym (append-nil (written w));
    outer_after = refl;
  }

  module _ {M : Type 0} where
    module _ (cases : List (Case M reading.Reader)) where
      pub Writes-nothing : (m : M) → Writes cases (λ w. ok w) m m
      Writes-nothing m = record {
        bytes = [];
        adds = adds_nothing;
        takes = λ end r tail e within. (r, refl, e, omega arith);
      }

      pub Writes-both :
          (f g : Writer → Outcome Writer) (m next last : M)
          → Writes cases f m next
          → Writes cases g next last
          → Writes cases (λ w. f w >>= g) m last
      Writes-both f g m next last a b = record {
        bytes = a.bytes ++ b.bytes;
        adds = adds_both f g a.bytes b.bytes a.adds b.adds;
        takes = λ end r tail e within.
            let sizes = length-append a.bytes b.bytes in
            let (q, ran, left, on) =
              a.takes end r (b.bytes ++ tail) (e ∙ append_assoc a.bytes b.bytes tail)
                (omega arith) in
            let (p, ran', left', on') = b.takes end q tail left (omega arith) in
            (p, ran ∙ ran', left', omega arith);
      }

      module _ (total : AllSettle reading cases) where
        more_rounds :
            (end : ℕ) (next : M) (p : reading.Reader) (n : ℕ)
            → 0 < n
            → end < at p + n
            → decode_loop reading cases n end next p ≡ run cases end next p
        more_rounds end next p zero some_left enough = absurd (omega arith)
        more_rounds end next p (suc n) some_left enough =
            decode_loop_enough reading cases total n (end - at p) end next p (omega arith)
              (omega arith)

        -- A tag and its value, which the case of the tag reads.
        pub Writes-field :
            (tag : ℕ) (write : Writer → Outcome Writer) (c : Case M reading.Reader) (m next : M)
            → IsUint32 tag
            → chosen tag cases ≡ some c
            → Carried write (c.read m) next
            → Writes cases (λ w. writing.uint32 tag w >>= write) m next
        Writes-field tag write c m next fits found v = record {
          bytes = writing.uint32_bytes tag ++ v.bytes;
          adds =
              adds_both (writing.uint32 tag) write (writing.uint32_bytes tag) v.bytes
                (λ w. writing.uint32_adds tag w fits) v.adds;
          takes = λ end r tail e within.
              let sizes = length-append (writing.uint32_bytes tag) v.bytes in
              let tagged =
                reading.uint32_takes tag r (v.bytes ++ tail) fits
                  (e ∙ append_assoc (writing.uint32_bytes tag) v.bytes tail) in
              let (p, gave, left, on) = v.takes tagged.after tail tagged.rest_after in
              let before = reading.uint32_goes_on r tagged.after tag tagged.succeeds in
              let moved = tagged.at_after in
              let ran =
                round_field reading cases end m r tag tagged.after (lt→ltb _ _ (omega arith))
                  tagged.succeeds (end - at r) c next p found gave in
              (
                p,
                ran ∙ more_rounds end next p (end - at r) (omega arith) (omega arith),
                left,
                omega arith,
              );
        }

        -- A text under a tag of no case is skipped.
        pub Writes-unknown :
            (tag : ℕ) (s : String) (m : M)
            → IsUint32 tag
            → tag % 8 ≡ 2
            → chosen tag cases ≡ none
            → Writes cases (λ w. writing.uint32 tag w >>= writing.string s) m m
        Writes-unknown tag s m fits text unknown = record {
          bytes = writing.uint32_bytes tag ++ writing.string_bytes s;
          adds =
              adds_both (writing.uint32 tag) (writing.string s) (writing.uint32_bytes tag)
                (writing.string_bytes s) (λ w. writing.uint32_adds tag w fits)
                (writing.string_adds s);
          takes = λ end r tail e within.
              let sizes = length-append (writing.uint32_bytes tag) (writing.string_bytes s) in
              let tagged =
                reading.uint32_takes tag r (writing.string_bytes s ++ tail) fits
                  (e ∙ append_assoc (writing.uint32_bytes tag) (writing.string_bytes s) tail) in
              let skipped = reading.string_skips s tagged.after tail tagged.rest_after in
              let before = reading.uint32_goes_on r tagged.after tag tagged.succeeds in
              let moved = tagged.at_after in
              let on = skipped.at_after in
              let goes : ends_group tag ≡ false = ground (arith, text) in
              let ran =
                round_skip reading cases end m r tag tagged.after (lt→ltb _ _ (omega arith))
                  tagged.succeeds (end - at r) skipped.after unknown goes
                  (ap (λ type. reading.skip type tagged.after) text ∙ skipped.succeeds) in
              (
                skipped.after,
                ran ∙ more_rounds end m skipped.after (end - at r) (omega arith) (omega arith),
                skipped.rest_after,
                omega arith,
              );
        }

        pub Writes-same :
            (f g : Writer → Outcome Writer) (m next : M)
            → ((w : Writer) → f w ≡ g w)
            → Writes cases g m next
            → Writes cases f m next
        Writes-same f g m next same a = record {
          bytes = a.bytes;
          adds = λ w. subst (AddsTo w a.bytes) (sym (same w)) (a.adds w);
          takes = a.takes;
        }

-- One write after another.
infixl 4 ◌⨾◌
pub ◌⨾◌ :
    {writing : Writing} {reading : Reading writing} {M : Type 0}
    {cases : List (Case M reading.Reader)} {f g : writing.Writer → Outcome writing.Writer}
    {m next last : M}
    → Writes reading cases f m next
    → Writes reading cases g next last
    → Writes reading cases (λ w. f w >>= g) m last
◌⨾◌ {reading = reading} a b = Writes-both reading _ _ _ _ _ _ a b
