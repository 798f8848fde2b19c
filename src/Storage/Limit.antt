-- ===== src/Storage/Limit.antt =====
-- The size limit on a stream of chunks.
use email_platform_services.Common.{
  ℕ, ◌+◌, ◌≤◌, ◌<◌, ◌≡◌, refl, ap, ◌∙◌, inl, inr, true, List, [], ◌∷◌, ◌++◌, length, ltb, arith,
  Bool-cases, ltb→lt,
}
use email_platform_services.Storage.{Text, Piped, passed, failed, forward, pipe}

abbrev pub total : List Text → ℕ
total [] = 0
total (chunk ∷ chunks) = length chunk + total chunks

-- What a stream with the count `seen` gives: all chunks if they fit, and otherwise the longest
-- row of chunks that fits with the count at the first chunk that does not.
abbrev pub IsLimited : ℕ → ℕ → List Text → Piped → Type 0
IsLimited max seen chunks (passed out) = (out ≡ chunks) × (seen + total chunks ≤ max)
IsLimited max seen chunks (failed out e) =
    (chunk : Text) × (rest : List Text) × (chunks ≡ out ++ chunk ∷ rest)
    × (seen + total out ≤ max)
    × (max < seen + total out + length chunk)
    × (e ≡ record { seen = seen + total out + length chunk; max = max })

forward-IsLimited :
    (max seen : ℕ) (chunk : Text) (chunks : List Text) (p : Piped)
    → IsLimited max (seen + length chunk) chunks p
    → IsLimited max seen (chunk ∷ chunks) (forward chunk p)
unfolding forward
forward-IsLimited max seen chunk chunks (passed out) (e, h) = (ap (◌∷◌ chunk) e, omega arith)
forward-IsLimited max seen chunk chunks (failed out e) (next, rest, split, fits, over, err) = (
  next,
  rest,
  ap (◌∷◌ chunk) split,
  omega arith,
  omega arith,
  err ∙ ap (λ n. record { seen = n; max = max }) (omega arith),
)

-- A stream that starts within the limit passes unchanged when its bytes fit; otherwise the chunks
-- before the first one too many pass, and the error has the count with that chunk and the limit.
pub pipe-IsLimited :
    (max seen : ℕ) (chunks : List Text)
    → seen ≤ max
    → IsLimited max seen chunks (pipe max seen chunks)
unfolding pipe
pipe-IsLimited max seen [] h = (refl, omega arith)
pipe-IsLimited max seen (chunk ∷ chunks) h = elim (Bool-cases (ltb max (seen + length chunk))) [
  | inl over ↦
      rw (over, pipe)
        (
          chunk,
          chunks,
          refl,
          omega arith,
          exceeds over,
          ap (λ n. record { seen = n; max = max }) (omega arith),
        )
  | inr fits ↦
      rw (fits, pipe)
        (forward-IsLimited max seen chunk chunks _
          (pipe-IsLimited max (seen + length chunk) chunks (ground arith)))
]
  where
    exceeds : ltb max (seen + length chunk) ≡ true → max < seen + 0 + length chunk
    exceeds over = omega (arith, ltb→lt _ _ over)
