-- ===== src/Contracts/Codec.antt =====
-- What every `encode` and `decode` of parser.ts is made of: a field is written after its tag unless
-- it has its default, and the fields are read in a loop over the tags.
pub mod Loop
pub mod Fields
pub mod Values
pub mod Nested
pub mod Reads
use email_platform_services.Common.{
  ℕ, zero, suc, ◌+◌, ◌-◌, ◌/◌, ◌%◌, String, str_eq, Bool, true, false, ◌==◌, ◌&&◌, ◌||◌, not, ltb,
  Option, none, some, List, [], ◌∷◌, ℤ, pos, negsuc, Outcome, ok, throws, Thrown, if◌then◌else◌,
}
use email_platform_services.Contracts.Wire.{Bytes, Writing, Reading}

-- What a computation with exceptions gives to the next.
infixl 5 ◌>>=◌
unfoldable pub ◌>>=◌ : {A B : Type 0} → Outcome A → (A → Outcome B) → Outcome B
ok a >>= next = next a
throws err >>= next = throws err

-- A decoded value, or what was thrown; or the rounds that a loop was given were too few.
pub data Decoded (A : Type 0) : Type 0 where
  got : A → Decoded A
  fails : Thrown → Decoded A
  stuck : Decoded A

unfoldable pub settled : {A : Type 0} → Outcome A → Decoded A
settled (ok a) = got a
settled (throws err) = fails err

unfoldable pub and_then : {A B : Type 0} → Decoded A → (A → Decoded B) → Decoded B
and_then (got a) next = next a
and_then (fails err) next = fails err
and_then stuck next = stuck

module _ (writing : Writing) where
  -- `if (message.f !== "") { writer.uint32(tag).string(message.f); }`, and so on.
  unfoldable pub string_field : ℕ → String → writing.Writer → Outcome writing.Writer
  unfolding ◌>>=◌
  string_field tag s w =
      let written = writing.uint32 tag w >>= writing.string s in
      if str_eq s "" then ok w else written

  unfoldable pub int32_present : ℕ → ℤ → writing.Writer → Outcome writing.Writer
  unfolding ◌>>=◌
  int32_present tag n w = writing.uint32 tag w >>= writing.int32 n

  unfoldable pub bool_present : ℕ → Bool → writing.Writer → Outcome writing.Writer
  unfolding ◌>>=◌
  bool_present tag b w = writing.uint32 tag w >>= writing.bool b

  unfoldable pub int32_field : ℕ → ℤ → writing.Writer → Outcome writing.Writer
  unfolding int32_present
  int32_field tag (pos zero) w = ok w
  int32_field tag n w = int32_present tag n w

  unfoldable pub bool_field : ℕ → Bool → writing.Writer → Outcome writing.Writer
  unfolding bool_present
  bool_field tag false w = ok w
  bool_field tag true w = bool_present tag true w

  -- `if (message.f !== undefined) { ... }`.
  unfoldable pub optional_field :
      {A : Type 0}
      → (ℕ → A → writing.Writer → Outcome writing.Writer)
      → ℕ
      → Option A
      → writing.Writer
      → Outcome writing.Writer
  optional_field write tag none w = ok w
  optional_field write tag (some a) w = write tag a w

  -- `M.encode(value, writer.uint32(tag).fork()).join()`.
  unfoldable pub message_present :
      {M : Type 0}
      → (M → writing.Writer → Outcome writing.Writer)
      → ℕ
      → M
      → writing.Writer
      → Outcome writing.Writer
  unfolding ◌>>=◌
  message_present encode tag value w =
      writing.uint32 tag w >>= (λ v. encode value (writing.fork v)) >>= writing.join

  -- `for (const v of values) { ... }`.
  unfoldable pub each_present :
      {M : Type 0}
      → (M → writing.Writer → Outcome writing.Writer)
      → ℕ
      → List M
      → writing.Writer
      → Outcome writing.Writer
  unfolding ◌>>=◌ message_present
  each_present encode tag [] w = ok w
  each_present encode tag (value ∷ values) w =
      message_present encode tag value w >>= each_present encode tag values

  -- `Buffer.from(M.encode(value).finish())`.
  unfoldable pub serialize :
      {M : Type 0} → (M → writing.Writer → Outcome writing.Writer) → M → Outcome Bytes
  unfolding ◌>>=◌
  serialize encode value = encode value writing.new >>= (λ w. ok (writing.finish w))

-- A `case` of the switch: the number of a field, its whole tag, and what is done with the field.
pub record Case (M Reader : Type 0) : Type 0 where
  pub number : ℕ
  pub tag : ℕ
  pub read : M → Reader → Decoded (M × Reader)

-- A generated message: `createBase...()`, and the switch of its `decode`.
pub record Decoder (M Reader : Type 0) : Type 0 where
  pub base : M
  pub cases : List (Case M Reader)

-- `switch (tag >>> 3)`, in which a case of another tag is left by `break`.
unfoldable pub chosen : {M Reader : Type 0} → ℕ → List (Case M Reader) → Option (Case M Reader)
chosen tag [] = none
chosen tag (c ∷ cases) =
    let others = chosen tag cases in
    if c.number == tag / 8 then (if c.tag == tag then some c else none) else others

-- `(tag & 7) === 4 || tag === 0`.
abbrev pub ends_group : ℕ → Bool
ends_group tag = tag % 8 == 4 || tag == 0

module _ {writing : Writing} (reading : Reading writing) where
  abbrev pub Reader : Type 0
  Reader = reading.Reader

  -- The `while` loop of `decode`, in so many rounds.
  unfoldable pub decode_loop :
      {M : Type 0} → List (Case M Reader) → ℕ → ℕ → M → Reader → Decoded (M × Reader)
  unfolding and_then settled chosen
  decode_loop cases zero end message r = stuck
  decode_loop cases (suc rounds) end message r = elim (ltb (reading.at r) end) [
    | false ↦ got (message, r)
    | true ↦ and_then (settled (reading.uint32 r)) (λ (tag, q). elim (chosen tag cases) [
      | some c ↦ and_then (c.read message q) (λ (next, p). decode_loop cases rounds end next p)
      | none ↦ elim (ends_group tag) [
        | true ↦ got (message, q)
        | false ↦
            and_then (settled (reading.skip (tag % 8) q))
              (λ p. decode_loop cases rounds end message p)
      ]
    ])
  ]

  -- `end` of `decode`.
  unfoldable pub end_of : Option ℕ → Reader → ℕ
  end_of none r = reading.len r
  end_of (some length) r = reading.at r + length

  -- `decode(reader, length)`; a round takes a byte at least.
  unfoldable pub decode : {M : Type 0} → Decoder M Reader → Option ℕ → Reader → Decoded (M × Reader)
  unfolding end_of decode_loop
  decode message length r =
      let end = end_of length r in
      decode_loop message.cases (suc (end - reading.at r)) end message.base r

  -- What is done with a field: `message.f = reader.string()`, and so on.
  unfoldable pub read_value :
      {M A : Type 0}
      → (Reader → Outcome (A × Reader))
      → (M → A → M)
      → M
      → Reader
      → Decoded (M × Reader)
  unfolding and_then settled
  read_value read put message r = and_then (settled (read r)) (λ (a, q). got (put message a, q))

  -- `M.decode(reader, reader.uint32())`.
  unfoldable pub read_message :
      {M A : Type 0}
      → (Option ℕ → Reader → Decoded (A × Reader))
      → (M → A → M)
      → M
      → Reader
      → Decoded (M × Reader)
  unfolding and_then settled
  read_message decode_it put message r =
      and_then (settled (reading.uint32 r))
        (λ (length, q). and_then (decode_it (some length) q) (λ (a, p). got (put message a, p)))

  -- `M.decode(buffer)`.
  unfoldable pub deserialize :
      {A : Type 0} → (Option ℕ → Reader → Decoded (A × Reader)) → Bytes → Decoded A
  unfolding and_then
  deserialize decode_it bytes = and_then (decode_it none (reading.new bytes)) (λ (a, r). got a)
