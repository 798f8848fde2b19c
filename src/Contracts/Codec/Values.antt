-- ===== src/Contracts/Codec/Values.antt =====
-- The fields of each kind of value: what one writes is what its case reads.
use email_platform_services.Common.{
  ℕ, zero, suc, ◌%◌, ◌≡◌, refl, sym, ap, subst, Bool, true, false, String, str_eq, eq_iff, Option,
  none, some, List, ℤ, pos, negsuc, inl, inr, Bool-cases, Outcome, ok,
}
use email_platform_services.Contracts.Wire.{Writing, Reading, IsUint32, IsInt32}
use email_platform_services.Contracts.Codec.{
  ◌>>=◌, settled, and_then, Case, chosen, string_field, int32_field, bool_field, int32_present,
  bool_present, optional_field, read_value,
}
use email_platform_services.Contracts.Codec.Loop.{AllSettle}
use email_platform_services.Contracts.Codec.Fields.{
  AllOf, Carried, Writes, Writes-nothing, Writes-field, Writes-unknown, Writes-same,
}

module _ {writing : Writing} (reading : Reading writing) where
  open writing use {Writer, written, outer}
  open reading use {at, rest}

  string-Carried :
      (s : String) → Carried reading (writing.string s) (λ r. settled (reading.string r)) s
  unfolding settled
  string-Carried s = record {
    bytes = writing.string_bytes s;
    adds = writing.string_adds s;
    takes = λ r tail e.
        let taken = reading.string_takes s r tail e in
        (taken.after, ap settled taken.succeeds, taken.rest_after, taken.at_after);
  }

  int32-Carried :
      (n : ℤ) → IsInt32 n → Carried reading (writing.int32 n) (λ r. settled (reading.int32 r)) n
  unfolding settled
  int32-Carried n fits = record {
    bytes = writing.int32_bytes n;
    adds = λ w. writing.int32_adds n w fits;
    takes = λ r tail e.
        let taken = reading.int32_takes n r tail fits e in
        (taken.after, ap settled taken.succeeds, taken.rest_after, taken.at_after);
  }

  bool-Carried : (b : Bool) → Carried reading (writing.bool b) (λ r. settled (reading.bool r)) b
  unfolding settled
  bool-Carried b = record {
    bytes = writing.bool_bytes b;
    adds = writing.bool_adds b;
    takes = λ r tail e.
        let taken = reading.bool_takes b r tail e in
        (taken.after, ap settled taken.succeeds, taken.rest_after, taken.at_after);
  }

  module _ {M : Type 0} where
    read_value-Carried :
        {A : Type 0} (write : Writer → Outcome Writer)
        (read : reading.Reader → Outcome (A × reading.Reader)) (put : M → A → M) (m : M) (a : A)
        → Carried reading write (λ r. settled (read r)) a
        → Carried reading write (read_value reading read put m) (put m a)
    unfolding read_value and_then
    read_value-Carried write read put m a c = record {
      bytes = c.bytes;
      adds = c.adds;
      takes = λ r tail e.
          let (p, gave, left, on) = c.takes r tail e in (p, rw (gave, and_then) refl, left, on);
    }

    module _ (cases : List (Case M reading.Reader)) (total : AllSettle reading cases) where
      -- A case that assigns what a reader's method gives.
      abbrev pub IsCase :
          {A : Type 0} → ℕ → (reading.Reader → Outcome (A × reading.Reader)) → (M → A → M) → Type 0
      IsCase tag read put =
          (n : ℕ) × (chosen tag cases
            ≡ some (record { number = n; tag = tag; read = read_value reading read put }))

      Writes-value :
          {A : Type 0} (tag : ℕ) (write : Writer → Outcome Writer)
          (read : reading.Reader → Outcome (A × reading.Reader)) (put : M → A → M) (m next : M)
          (a : A)
          → IsUint32 tag
          → IsCase tag read put
          → put m a ≡ next
          → Carried reading write (λ r. settled (read r)) a
          → Writes reading cases (λ w. writing.uint32 tag w >>= write) m next
      Writes-value tag write read put m next a fits (n, found) puts c =
          subst (Writes reading cases (λ w. writing.uint32 tag w >>= write) m) puts (
            Writes-field reading cases total tag write _ m (put m a) fits found
              (read_value-Carried write read put m a c))

      pub Writes-string :
          (tag : ℕ) (put : M → String → M) (set : String → M) (s : String)
          → IsUint32 tag
          → IsCase tag reading.string put
          → put (set "") s ≡ set s
          → Writes reading cases (string_field writing tag s) (set "") (set s)
      unfolding string_field
      Writes-string tag put set s fits is_case puts = elim (Bool-cases (str_eq s "")) [
        | inl empty ↦
            subst (λ t. Writes reading cases (string_field writing tag t) (set "") (set t))
              (sym ((eq_iff s "").0 empty)) (Writes-nothing reading cases (set ""))
        | inr filled ↦
            Writes-same reading cases total _ (λ w. writing.uint32 tag w >>= writing.string s) _ _
              (λ w. rw (string_field, filled) refl)
              (Writes-value tag (writing.string s) reading.string put (set "") (set s) s fits
                is_case puts (string-Carried s))
      ]

      pub Writes-int32 :
          (tag : ℕ) (put : M → ℤ → M) (set : ℤ → M) (n : ℤ)
          → IsUint32 tag
          → IsInt32 n
          → IsCase tag reading.int32 put
          → put (set (pos 0)) n ≡ set n
          → Writes reading cases (int32_field writing tag n) (set (pos 0)) (set n)
      unfolding int32_field int32_present
      Writes-int32 tag put set (pos zero) fits small is_case puts =
          Writes-nothing reading cases (set (pos 0))
      Writes-int32 tag put set (pos (suc n)) fits small is_case puts =
          Writes-value tag (writing.int32 (pos (suc n))) reading.int32 put (set (pos 0)) _ _ fits
            is_case puts (int32-Carried (pos (suc n)) small)
      Writes-int32 tag put set (negsuc n) fits small is_case puts =
          Writes-value tag (writing.int32 (negsuc n)) reading.int32 put (set (pos 0)) _ _ fits
            is_case puts (int32-Carried (negsuc n) small)

      pub Writes-bool :
          (tag : ℕ) (put : M → Bool → M) (set : Bool → M) (b : Bool)
          → IsUint32 tag
          → IsCase tag reading.bool put
          → put (set false) b ≡ set b
          → Writes reading cases (bool_field writing tag b) (set false) (set b)
      unfolding bool_field bool_present
      Writes-bool tag put set false fits is_case puts = Writes-nothing reading cases (set false)
      Writes-bool tag put set true fits is_case puts =
          Writes-value tag (writing.bool true) reading.bool put (set false) _ _ fits is_case puts
            (bool-Carried true)

      pub Writes-optional_int32 :
          (tag : ℕ) (put : M → ℤ → M) (set : Option ℤ → M) (n : Option ℤ)
          → IsUint32 tag
          → AllOf IsInt32 n
          → IsCase tag reading.int32 put
          → ((k : ℤ) → put (set none) k ≡ set (some k))
          → Writes reading cases
              (optional_field writing (int32_present writing) tag n)
              (set none)
              (set n)
      unfolding optional_field int32_present
      Writes-optional_int32 tag put set none fits small is_case puts =
          Writes-nothing reading cases (set none)
      Writes-optional_int32 tag put set (some n) fits small is_case puts =
          Writes-value tag (writing.int32 n) reading.int32 put (set none) _ _ fits is_case (puts n)
            (int32-Carried n small)

      pub Writes-optional_bool :
          (tag : ℕ) (put : M → Bool → M) (set : Option Bool → M) (b : Option Bool)
          → IsUint32 tag
          → IsCase tag reading.bool put
          → ((k : Bool) → put (set none) k ≡ set (some k))
          → Writes reading cases
              (optional_field writing (bool_present writing) tag b)
              (set none)
              (set b)
      unfolding optional_field bool_present
      Writes-optional_bool tag put set none fits is_case puts =
          Writes-nothing reading cases (set none)
      Writes-optional_bool tag put set (some b) fits is_case puts =
          Writes-value tag (writing.bool b) reading.bool put (set none) _ _ fits is_case (puts b)
            (bool-Carried b)

      -- A text, empty or not, under a tag of no case.
      pub Writes-unknown_field :
          (tag : ℕ) (s : String) (m : M)
          → IsUint32 tag
          → tag % 8 ≡ 2
          → chosen tag cases ≡ none
          → Writes reading cases (string_field writing tag s) m m
      unfolding string_field
      Writes-unknown_field tag s m fits text unknown = elim (Bool-cases (str_eq s "")) [
        | inl empty ↦
            Writes-same reading cases total _ (λ w. ok w) m m (λ w. rw (string_field, empty) refl)
              (Writes-nothing reading cases m)
        | inr filled ↦
            Writes-same reading cases total _ (λ w. writing.uint32 tag w >>= writing.string s) m m
              (λ w. rw (string_field, filled) refl)
              (Writes-unknown reading cases total tag s m fits text unknown)
      ]
