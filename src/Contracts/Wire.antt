-- ===== src/Contracts/Wire.antt =====
-- `BinaryWriter` and `BinaryReader` of @bufbuild/protobuf, which parser.ts imports: what its
-- `encode` and `decode` rely on. A byte is a number, and numbers of messages are integers.
use email_platform_services.Common.{
  ℕ, ◌+◌, ◌^◌, ◌≤◌, ◌<◌, ◌≡◌, String, Bool, List, [], ◌∷◌, ◌++◌, length, ℤ, pos, negsuc, Outcome,
  ok, throws, Thrown,
}

abbrev pub Bytes : Type 0
Bytes = List ℕ

abbrev pub IsUint32 : ℕ → Type 0
IsUint32 n = n < 2 ^ 32

abbrev pub IsInt32 : ℤ → Type 0
IsInt32 (pos n) = n < 2 ^ 31
IsInt32 (negsuc n) = n < 2 ^ 31

-- What a write does: it goes through, and these bytes are added to the chunk under way.
pub record Adds {Writer : Type 0} (written : Writer → Bytes) (outer : Writer → List Bytes)
    (w : Writer) (bytes : Bytes) (result : Outcome Writer) : Type 0 where
  pub after : Writer
  pub succeeds : result ≡ ok after
  pub written_after : written after ≡ written w ++ bytes
  pub outer_after : outer after ≡ outer w

-- `written` is the chunk under way, and `outer` are the chunks around it, which `fork` puts aside
-- and `join` takes up again.
pub record Writing : Type 1 where
  pub Writer : Type 0
  pub new : Writer
  pub uint32 : ℕ → Writer → Outcome Writer
  pub string : String → Writer → Outcome Writer
  pub int32 : ℤ → Writer → Outcome Writer
  pub bool : Bool → Writer → Outcome Writer
  pub fork : Writer → Writer
  pub join : Writer → Outcome Writer
  pub finish : Writer → Bytes
  pub uint32_bytes : ℕ → Bytes
  pub string_bytes : String → Bytes
  pub int32_bytes : ℤ → Bytes
  pub bool_bytes : Bool → Bytes
  pub written : Writer → Bytes
  pub outer : Writer → List Bytes
  pub written_new : written new ≡ []
  pub outer_new : outer new ≡ []
  pub written_fork : (w : Writer) → written (fork w) ≡ []
  pub outer_fork : (w : Writer) → outer (fork w) ≡ written w ∷ outer w
  pub finish_written : (w : Writer) → outer w ≡ [] → finish w ≡ written w
  pub uint32_adds :
      (n : ℕ) (w : Writer) → IsUint32 n → Adds written outer w (uint32_bytes n) (uint32 n w)
  pub string_adds : (s : String) (w : Writer) → Adds written outer w (string_bytes s) (string s w)
  pub int32_adds :
      (n : ℤ) (w : Writer) → IsInt32 n → Adds written outer w (int32_bytes n) (int32 n w)
  pub int32_throws :
      (n : ℤ) (w : Writer) → (IsInt32 n → ⊥) → (err : Thrown) × (int32 n w ≡ throws err)
  pub bool_adds : (b : Bool) (w : Writer) → Adds written outer w (bool_bytes b) (bool b w)
  pub join_adds :
      (w v : Writer)
      → outer v ≡ written w ∷ outer w
      → IsUint32 (length (written v))
      → Adds written outer w (uint32_bytes (length (written v)) ++ written v) (join v)

-- What a read does on bytes that a write has made: it takes them, and gives the value back.
pub record Takes {Reader A : Type 0} (rest : Reader → Bytes) (at : Reader → ℕ) (r : Reader)
    (bytes tail : Bytes) (a : A) (result : Outcome (A × Reader)) : Type 0 where
  pub after : Reader
  pub succeeds : result ≡ ok (a, after)
  pub rest_after : rest after ≡ tail
  pub at_after : at after ≡ at r + length bytes

-- What skipping a field does on its bytes.
pub record Skips {Reader : Type 0} (rest : Reader → Bytes) (at : Reader → ℕ) (r : Reader)
    (bytes tail : Bytes) (result : Outcome Reader) : Type 0 where
  pub after : Reader
  pub succeeds : result ≡ ok after
  pub rest_after : rest after ≡ tail
  pub at_after : at after ≡ at r + length bytes

-- A reader over bytes: `at` is `pos`, and `rest` are the bytes from there. Each read goes on, or
-- throws; a tag is at least one byte.
pub record Reading (writing : Writing) : Type 1 where
  pub Reader : Type 0
  pub new : Bytes → Reader
  pub at : Reader → ℕ
  pub len : Reader → ℕ
  pub uint32 : Reader → Outcome (ℕ × Reader)
  pub string : Reader → Outcome (String × Reader)
  pub int32 : Reader → Outcome (ℤ × Reader)
  pub bool : Reader → Outcome (Bool × Reader)
  pub skip : ℕ → Reader → Outcome Reader
  pub rest : Reader → Bytes
  pub at_new : (bytes : Bytes) → at (new bytes) ≡ 0
  pub len_new : (bytes : Bytes) → len (new bytes) ≡ length bytes
  pub rest_new : (bytes : Bytes) → rest (new bytes) ≡ bytes
  pub uint32_goes_on : (r q : Reader) (n : ℕ) → uint32 r ≡ ok (n, q) → at r < at q
  pub string_goes_on : (r q : Reader) (s : String) → string r ≡ ok (s, q) → at r ≤ at q
  pub int32_goes_on : (r q : Reader) (n : ℤ) → int32 r ≡ ok (n, q) → at r ≤ at q
  pub bool_goes_on : (r q : Reader) (b : Bool) → bool r ≡ ok (b, q) → at r ≤ at q
  pub skip_goes_on : (r q : Reader) (type : ℕ) → skip type r ≡ ok q → at r ≤ at q
  pub uint32_takes :
      (n : ℕ) (r : Reader) (tail : Bytes)
      → IsUint32 n
      → rest r ≡ writing.uint32_bytes n ++ tail
      → Takes rest at r (writing.uint32_bytes n) tail n (uint32 r)
  pub string_takes :
      (s : String) (r : Reader) (tail : Bytes)
      → rest r ≡ writing.string_bytes s ++ tail
      → Takes rest at r (writing.string_bytes s) tail s (string r)
  pub int32_takes :
      (n : ℤ) (r : Reader) (tail : Bytes)
      → IsInt32 n
      → rest r ≡ writing.int32_bytes n ++ tail
      → Takes rest at r (writing.int32_bytes n) tail n (int32 r)
  pub bool_takes :
      (b : Bool) (r : Reader) (tail : Bytes)
      → rest r ≡ writing.bool_bytes b ++ tail
      → Takes rest at r (writing.bool_bytes b) tail b (bool r)
  pub string_skips :
      (s : String) (r : Reader) (tail : Bytes)
      → rest r ≡ writing.string_bytes s ++ tail
      → Skips rest at r (writing.string_bytes s) tail (skip 2 r)
