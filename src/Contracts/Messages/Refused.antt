-- ===== src/Contracts/Messages/Refused.antt =====
-- Which settings can be sent.
use native.Mathlib.Decide.{dec_lt}
use email_platform_services.Common.{
  ℕ, zero, suc, ◌^◌, ◌≡◌, refl, ◌↔◌, ◌⊎◌, inl, inr, ℤ, pos, negsuc, Outcome, ok, throws, arith,
}
use email_platform_services.Parser.Messages.{ParserSettings}
use email_platform_services.Contracts.Wire.{Bytes, Writing, Reading, IsInt32}
use email_platform_services.Contracts.Codec.{
  ◌>>=◌, serialize, int32_field, int32_present, bool_field,
}
use email_platform_services.Contracts.Codec.Nested.{serialize-deserialize}
use email_platform_services.Contracts.Messages.{
  CommonMessages, parser_settings, parser_settings_encode,
}
use email_platform_services.Contracts.Messages.Ends.{HonestCommon}
use email_platform_services.Contracts.Messages.RoundTrip.{parser_settings-Writes}

>>=-eq-ok :
    {A B : Type 0} (a : Outcome A) (next : A → Outcome B) (b : B)
    → a >>= next ≡ ok b
    → (x : A) × (a ≡ ok x) × (next x ≡ ok b)
unfolding ◌>>=◌
>>=-eq-ok (ok x) next b e = (x, refl, e)
>>=-eq-ok (throws err) next b e = absurd cc

IsInt32-cases : (n : ℤ) → IsInt32 n ⊎ (IsInt32 n → ⊥)
IsInt32-cases (pos n) = elim (dec_lt n (2 ^ 31)) [ yes h ↦ inl h | no h ↦ inr h ]
IsInt32-cases (negsuc n) = elim (dec_lt n (2 ^ 31)) [ yes h ↦ inl h | no h ↦ inr h ]

module _ (writing : Writing) where
  int32-ok : (n : ℤ) (w v : writing.Writer) → writing.int32 n w ≡ ok v → IsInt32 n
  int32-ok n w v e = elim (IsInt32-cases n) [
    | inl fits ↦ fits
    | inr large ↦ let (err, thrown) = writing.int32_throws n w large in absurd cc
  ]

  int32_field-ok :
      (tag : ℕ) (n : ℤ) (w v : writing.Writer) → int32_field writing tag n w ≡ ok v → IsInt32 n
  unfolding int32_field int32_present
  int32_field-ok tag (pos zero) w v e = omega arith
  int32_field-ok tag (pos (suc n)) w v e =
      let (u, tagged, wrote) = >>=-eq-ok (writing.uint32 tag w) (writing.int32 (pos (suc n))) v e in
      int32-ok (pos (suc n)) u v wrote
  int32_field-ok tag (negsuc n) w v e =
      let (u, tagged, wrote) = >>=-eq-ok (writing.uint32 tag w) (writing.int32 (negsuc n)) v e in
      int32-ok (negsuc n) u v wrote

module _ {writing : Writing} {reading : Reading writing} (common : CommonMessages reading) where
  -- Settings are serialised exactly when both of their numbers fit into 32 bits; otherwise an error
  -- is thrown, and nothing is sent.
  pub serialize-settings_iff :
      (honest : HonestCommon common) (settings : ParserSettings)
      → ((bytes : Bytes) × (serialize writing (parser_settings_encode common) settings ≡ ok bytes))
        ↔ (IsInt32 settings.max_pages × IsInt32 settings.batch_size)
  unfolding serialize parser_settings_encode
  serialize-settings_iff honest settings = (
    λ sent.
        let max = int32_field writing 8 settings.max_pages in
        let batch = int32_field writing 16 settings.batch_size in
        let (w, encoded, done) =
          >>=-eq-ok (parser_settings_encode common settings writing.new)
            (λ u. ok (writing.finish u)) sent.0 sent.1 in
        let (v, both, last) =
          >>=-eq-ok (max writing.new >>= batch) (bool_field writing 24 settings.auto_import) w
            encoded in
        let (u, one, other) = >>=-eq-ok (max writing.new) batch v both in
        (
          int32_field-ok writing 8 settings.max_pages writing.new u one,
          int32_field-ok writing 16 settings.batch_size u v other,
        ),
    λ fits.
        let writes = parser_settings-Writes common honest settings fits.0 fits.1 in
        let whole =
          serialize-deserialize reading (parser_settings common) (parser_settings_encode common)
            settings writes in
        (writes.bytes, whole.0),
  )
