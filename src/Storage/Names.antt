-- ===== src/Storage/Names.antt =====
-- Sanitised file names, and public URLs.
use email_platform_services.Common.{
  ℕ, zero, suc, ◌≤◌, ◌<◌, ◌≡◌, refl, ◌≢◌, ap, true, false, [], ◌∷◌, ◌++◌, map, All, length, arith,
  Bool-cases, le→not_ltb, inl, inr, ltb,
}
use email_platform_services.Storage.{
  Text, path_separator, make_safe, slice_to, sanitize_filename, ends_with_separator, drop_last,
  build_public_url,
}

-- A character that a file name may keep: no separator of paths, and printable in ASCII.
abbrev pub IsSafe : ℕ → Type 0
IsSafe c = (c ≢ 47) × (c ≢ 92) × (c ≢ 127) × (31 < c)

make_safe-IsSafe : (c : ℕ) → IsSafe (make_safe c)
unfolding make_safe
make_safe-IsSafe c = ground arith

make_safe_of_IsSafe : (c : ℕ) → IsSafe c → make_safe c ≡ c
unfolding make_safe
make_safe_of_IsSafe c h = ground arith

map-IsSafe : (raw : Text) → All IsSafe (map make_safe raw)
map-IsSafe [] = tt
map-IsSafe (c ∷ raw) = (make_safe-IsSafe c, map-IsSafe raw)

slice_to-IsSafe : (n : ℕ) (text : Text) → All IsSafe text → All IsSafe (slice_to n text)
unfolding slice_to
slice_to-IsSafe zero text h = tt
slice_to-IsSafe (suc n) [] h = tt
slice_to-IsSafe (suc n) (c ∷ text) (h, hs) = (h, slice_to-IsSafe n text hs)

length-slice_to : (n : ℕ) (text : Text) → length (slice_to n text) ≤ n
unfolding slice_to
length-slice_to zero text = omega arith
length-slice_to (suc n) [] = omega arith
length-slice_to (suc n) (c ∷ text) = omega (arith, length-slice_to n text)

-- A sanitised name has no separator of paths, no NUL, no other ASCII control character, and at
-- most 255 code units.
pub sanitize_filename-IsSafe :
    (raw : Text) → All IsSafe (sanitize_filename raw) × (length (sanitize_filename raw) ≤ 255)
unfolding sanitize_filename
sanitize_filename-IsSafe raw = elim (Bool-cases (ltb 255 (length (map make_safe raw)))) [
  | inl long ↦ rw long (slice_to-IsSafe 255 _ (map-IsSafe raw), length-slice_to 255 _)
  | inr short ↦ rw short (map-IsSafe raw, ground arith)
]

map_of_IsSafe : (text : Text) → All IsSafe text → map make_safe text ≡ text
map_of_IsSafe [] h = refl
map_of_IsSafe (c ∷ text) (h, hs) = cc (make_safe_of_IsSafe c h, map_of_IsSafe text hs)

-- A name that is safe and short enough already is kept as it is, so sanitising is idempotent.
pub sanitize_filename_of_IsSafe :
    (text : Text) → All IsSafe text → length text ≤ 255 → sanitize_filename text ≡ text
unfolding sanitize_filename
sanitize_filename_of_IsSafe text h short =
    rw (map_of_IsSafe text h, le→not_ltb 255 (length text) short) refl

-- A separator at the end of the base makes no difference, and the URL is the base without it, one
-- separator and the key.
pub build_public_url_separator :
    (base bucket key : Text)
    → ends_with_separator base ≡ false
    → (build_public_url base bucket key ≡ base ++ path_separator ∷ key)
      × (build_public_url (base ++ path_separator ∷ []) bucket key
          ≡ build_public_url base bucket key)
unfolding build_public_url
build_public_url_separator base bucket key h =
    (rw h refl, rw (ends-append base, last-append base, h) refl)
  where
    ends-append : (text : Text) → ends_with_separator (text ++ path_separator ∷ []) ≡ true
    ends-append [] = refl
    ends-append (c ∷ []) = refl
    ends-append (c ∷ d ∷ text) = ends-append (d ∷ text)

    last-append : (text : Text) → drop_last (text ++ path_separator ∷ []) ≡ text
    last-append [] = refl
    last-append (c ∷ []) = refl
    last-append (c ∷ d ∷ text) = ap (◌∷◌ c) (last-append (d ∷ text))
