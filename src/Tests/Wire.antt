-- ===== src/Tests/Wire.antt =====
-- A writer and a reader of numbers: a text is its characters' numbers, each one up, and a 0.
use Prim.Native.Nat.{Ordering, compare}
use Prim.Native.Char.{char, code, IsLt, IsScalar}
use Prim.Native.String.{[] as empty, ◌∷◌ as push}
use email_platform_services.Common.{
  ℕ, zero, suc, ◌+◌, ◌≤◌, ◌<◌, ◌≡◌, refl, sym, ap, ◌∙◌, String, Bool, true, false, Option, none,
  some, List, [], ◌∷◌, ◌++◌, length, ℤ, pos, negsuc, Outcome, ok, throws, plain_error, Thrown,
  arith, ltb, ◌==◌, ◌^◌, if◌then◌else◌, Bool-cases, inl, inr,
}
use email_platform_services.Contracts.Wire.{Bytes, IsInt32, Adds, Takes, Skips, Writing, Reading}

-- `IsScalar` of a number, at its three comparisons.
abbrev BothLt : Ordering → Ordering → Type 0
BothLt Ordering.lt o = IsLt o
BothLt Ordering.eq _ = ⊥
BothLt Ordering.gt _ = ⊥

abbrev LtOrBothLt : Ordering → Ordering → Ordering → Type 0
LtOrBothLt Ordering.lt _ _ = Unit
LtOrBothLt Ordering.eq o p = BothLt o p
LtOrBothLt Ordering.gt o p = BothLt o p

unfoldable pub scalar : (a b c : Ordering) → Option (LtOrBothLt a b c)
scalar Ordering.lt b c = some tt
scalar Ordering.eq Ordering.lt Ordering.lt = some tt
scalar Ordering.gt Ordering.lt Ordering.lt = some tt
scalar _ _ _ = none

scalar-some : (a b c : Ordering) (h : LtOrBothLt a b c) → scalar a b c ≡ some h
unfolding scalar
scalar-some Ordering.lt b c h = refl
scalar-some Ordering.eq Ordering.lt Ordering.lt h = refl
scalar-some Ordering.gt Ordering.lt Ordering.lt h = refl
scalar-some Ordering.eq Ordering.lt Ordering.eq h = absurd h
scalar-some Ordering.eq Ordering.lt Ordering.gt h = absurd h
scalar-some Ordering.gt Ordering.lt Ordering.eq h = absurd h
scalar-some Ordering.gt Ordering.lt Ordering.gt h = absurd h
scalar-some Ordering.eq Ordering.eq c h = absurd h
scalar-some Ordering.eq Ordering.gt c h = absurd h
scalar-some Ordering.gt Ordering.eq c h = absurd h
scalar-some Ordering.gt Ordering.gt c h = absurd h

-- A value, how many numbers it took, and the others.
abbrev pub Taken : Type 0 → Type 0
Taken A = Option (A × ℕ × Bytes)

abbrev pub text_bytes : String → Bytes
text_bytes empty = 0 ∷ []
text_bytes (push c s) = suc (code c) ∷ text_bytes s

unfoldable pub push_taken : (n : ℕ) → Option (IsScalar n) → Taken String → Taken String
push_taken n (some h) (some (s, k, tail)) = some (push (char n h) s, suc k, tail)
push_taken n _ _ = none

unfoldable pub take_text : Bytes → Taken String
unfolding scalar push_taken
take_text [] = none
take_text (zero ∷ bytes) = some (empty, 1, bytes)
take_text (suc n ∷ bytes) =
    push_taken n (scalar (compare n 55296) (compare 57343 n) (compare n 1114112)) (take_text bytes)

pub take_text_bytes :
    (s : String) (tail : Bytes)
    → take_text (text_bytes s ++ tail) ≡ some (s, length (text_bytes s), tail)
unfolding take_text push_taken
take_text_bytes empty tail = refl
take_text_bytes (push (char n h) s) tail =
    rw (scalar-some _ _ _ h, take_text_bytes s tail, push_taken) refl

unfoldable pub take_number : Bytes → Taken ℕ
take_number [] = none
take_number (n ∷ bytes) = some (n, 1, bytes)

abbrev pub int_bytes : ℤ → Bytes
int_bytes (pos n) = 0 ∷ n ∷ []
int_bytes (negsuc n) = 1 ∷ n ∷ []

unfoldable pub take_int : Bytes → Taken ℤ
take_int (zero ∷ n ∷ bytes) = some (pos n, 2, bytes)
take_int (suc m ∷ n ∷ bytes) = some (negsuc n, 2, bytes)
take_int _ = none

abbrev pub bool_bytes : Bool → Bytes
bool_bytes false = 0 ∷ []
bool_bytes true = 1 ∷ []

unfoldable pub take_bool : Bytes → Taken Bool
take_bool [] = none
take_bool (zero ∷ bytes) = some (false, 1, bytes)
take_bool (suc n ∷ bytes) = some (true, 1, bytes)

abbrev pub Chunks : Type 0
Chunks = Bytes × List Bytes

abbrev pub put : Bytes → Chunks → Outcome Chunks
put bytes (written, outer) = ok (written ++ bytes, outer)

pub put-Adds :
    (bytes : Bytes) (w : Chunks)
    → Adds (λ (v : Chunks). v.0) (λ (v : Chunks). v.1) w bytes (put bytes w)
put-Adds bytes w = record {
  after = (w.0 ++ bytes, w.1);
  succeeds = refl;
  written_after = refl;
  outer_after = refl;
}

abbrev pub fits : ℤ → Bool
fits (pos n) = ltb n (2 ^ 31)
fits (negsuc n) = ltb n (2 ^ 31)

IsInt32-fits : (n : ℤ) → IsInt32 n → fits n ≡ true
IsInt32-fits (pos n) small = ground arith
IsInt32-fits (negsuc n) small = ground arith

fits-IsInt32 : (n : ℤ) → fits n ≡ true → IsInt32 n
fits-IsInt32 (pos n) small = ground arith
fits-IsInt32 (negsuc n) small = ground arith

abbrev pub put_int : ℤ → Chunks → Outcome Chunks
put_int n w = if fits n then put (int_bytes n) w else throws (plain_error "invalid int32")

pub put_int-Adds :
    (n : ℤ) (w : Chunks)
    → IsInt32 n
    → Adds (λ (v : Chunks). v.0) (λ (v : Chunks). v.1) w (int_bytes n) (put_int n w)
put_int-Adds n w small = rw (IsInt32-fits n small) (put-Adds (int_bytes n) w)

pub put_int_throws :
    (n : ℤ) (w : Chunks) → (IsInt32 n → ⊥) → (err : Thrown) × (put_int n w ≡ throws err)
put_int_throws n w large = elim (Bool-cases (fits n)) [
  | inl small ↦ absurd (large (fits-IsInt32 n small))
  | inr other ↦ (plain_error "invalid int32", rw (other) refl)
]

abbrev pub join : Chunks → Outcome Chunks
join (written, []) = throws (plain_error "no fork")
join (written, around ∷ outer) = ok (around ++ (length written ∷ written), outer)

pub join-Adds :
    (w v : Chunks)
    → v.1 ≡ w.0 ∷ w.1
    → Adds (λ (u : Chunks). u.0) (λ (u : Chunks). u.1) w ((length v.0 ∷ []) ++ v.0) (join v)
join-Adds w v e = record {
  after = (w.0 ++ (length v.0 ∷ v.0), w.1);
  succeeds = ap (λ outer. join (v.0, outer)) e;
  written_after = refl;
  outer_after = refl;
}

abbrev pub writing : Writing
writing = record {
  Writer = Chunks;
  new = ([], []);
  uint32 = λ n. put (n ∷ []);
  string = λ s. put (text_bytes s);
  int32 = put_int;
  bool = λ b. put (bool_bytes b);
  fork = λ w. ([], w.0 ∷ w.1);
  join = join;
  finish = λ w. w.0;
  uint32_bytes = λ n. n ∷ [];
  string_bytes = text_bytes;
  int32_bytes = int_bytes;
  bool_bytes = bool_bytes;
  written = λ w. w.0;
  outer = λ w. w.1;
  written_new = refl;
  outer_new = refl;
  written_fork = λ w. refl;
  outer_fork = λ w. refl;
  finish_written = λ w e. refl;
  uint32_adds = λ n w fits. put-Adds (n ∷ []) w;
  string_adds = λ s. put-Adds (text_bytes s);
  int32_adds = put_int-Adds;
  int32_throws = put_int_throws;
  bool_adds = λ b. put-Adds (bool_bytes b);
  join_adds = λ w v around fits. join-Adds w v around;
}

-- The reader: where it stands, and the numbers from there.
abbrev pub Standing : Type 0
Standing = ℕ × Bytes

abbrev pub step : {A : Type 0} → ℕ → Taken A → Outcome (A × Standing)
step at none = throws (plain_error "premature EOF")
step at (some (a, taken, tail)) = ok (a, (at + taken, tail))

pub step-Takes :
    {A : Type 0} (r : Standing) (taken : Taken A) (bytes tail : Bytes) (a : A)
    → taken ≡ some (a, length bytes, tail)
    → Takes (λ (q : Standing). q.1) (λ (q : Standing). q.0) r bytes tail a (step r.0 taken)
step-Takes r taken bytes tail a e = record {
  after = (r.0 + length bytes, tail);
  succeeds = ap (step r.0) e;
  rest_after = refl;
  at_after = refl;
}

pub step-le :
    {A : Type 0} (at : ℕ) (taken : Taken A) (q : Standing) (a : A)
    → step at taken ≡ ok (a, q)
    → at ≤ q.0
step-le at none q a e = absurd cc
step-le at (some (b, k, tail)) q a e =
    let same : (at + k, tail) ≡ q = cc in
    let moved : at + k ≡ q.0 = ap (λ (w : Standing). w.0) same in omega arith

pub number_lt :
    (at : ℕ) (bytes : Bytes) (q : Standing) (n : ℕ)
    → step at (take_number bytes) ≡ ok (n, q)
    → at < q.0
unfolding take_number
number_lt at [] q n e = absurd cc
number_lt at (m ∷ bytes) q n e =
    let same : (at + 1, bytes) ≡ q = cc in
    let moved : at + 1 ≡ q.0 = ap (λ (w : Standing). w.0) same in omega arith

pub take_int_bytes :
    (n : ℤ) (tail : Bytes) → take_int (int_bytes n ++ tail) ≡ some (n, length (int_bytes n), tail)
unfolding take_int
take_int_bytes (pos n) tail = refl
take_int_bytes (negsuc n) tail = refl

pub take_bool_bytes :
    (b : Bool) (tail : Bytes)
    → take_bool (bool_bytes b ++ tail) ≡ some (b, length (bool_bytes b), tail)
unfolding take_bool
take_bool_bytes false tail = refl
take_bool_bytes true tail = refl

unfoldable pub skip_one : {A : Type 0} → Outcome (A × Standing) → Outcome Standing
skip_one (ok (n, q)) = ok q
skip_one (throws err) = throws err

pub skip-le :
    (at : ℕ) (bytes : Bytes) (q : Standing)
    → skip_one (step at (take_number bytes)) ≡ ok q
    → at ≤ q.0
unfolding skip_one take_number
skip-le at [] q e = absurd cc
skip-le at (m ∷ bytes) q e =
    let same : (at + 1, bytes) ≡ q = cc in
    let moved : at + 1 ≡ q.0 = ap (λ (w : Standing). w.0) same in omega arith

abbrev pub skip : ℕ → Standing → Outcome Standing
skip type r =
    if type == 2 then skip_one (step r.0 (take_text r.1)) else skip_one (step r.0 (take_number r.1))

skip_text-le :
    (at : ℕ) (taken : Taken String) (q : Standing) → skip_one (step at taken) ≡ ok q → at ≤ q.0
unfolding skip_one
skip_text-le at none q e = absurd cc
skip_text-le at (some (s, k, tail)) q e =
    let same : (at + k, tail) ≡ q = cc in
    let moved : at + k ≡ q.0 = ap (λ (w : Standing). w.0) same in omega arith

pub skip_goes_on : (r q : Standing) (type : ℕ) → skip type r ≡ ok q → r.0 ≤ q.0
skip_goes_on r q type e = elim (Bool-cases (type == 2)) [
  | inl text ↦ skip_text-le r.0 (take_text r.1) q (sym (rw (text) refl) ∙ e)
  | inr other ↦ skip-le r.0 r.1 q (sym (rw (other) refl) ∙ e)
]

pub string-Skips :
    (s : String) (r : Standing) (tail : Bytes)
    → r.1 ≡ text_bytes s ++ tail
    → Skips (λ (q : Standing). q.1) (λ (q : Standing). q.0) r (text_bytes s) tail (skip 2 r)
unfolding skip_one
string-Skips s r tail e = record {
  after = (r.0 + length (text_bytes s), tail);
  succeeds = ap (λ taken. skip_one (step r.0 taken)) (ap take_text e ∙ take_text_bytes s tail);
  rest_after = refl;
  at_after = refl;
}

pub number-Takes :
    (n : ℕ) (r : Standing) (tail : Bytes)
    → r.1 ≡ (n ∷ []) ++ tail
    → Takes
        (λ (q : Standing). q.1)
        (λ (q : Standing). q.0)
        r
        (n ∷ [])
        tail
        n
        (step r.0 (take_number r.1))
unfolding take_number
number-Takes n r tail e = step-Takes r _ (n ∷ []) tail n (ap take_number e)

abbrev pub reading : Reading writing
reading = record {
  Reader = Standing;
  new = λ bytes. (0, bytes);
  at = λ r. r.0;
  len = λ r. r.0 + length r.1;
  uint32 = λ r. step r.0 (take_number r.1);
  string = λ r. step r.0 (take_text r.1);
  int32 = λ r. step r.0 (take_int r.1);
  bool = λ r. step r.0 (take_bool r.1);
  skip = skip;
  rest = λ r. r.1;
  at_new = λ bytes. refl;
  len_new = λ bytes. omega arith;
  rest_new = λ bytes. refl;
  uint32_goes_on = λ r q n e. number_lt r.0 r.1 q n e;
  string_goes_on = λ r q s e. step-le r.0 _ q s e;
  int32_goes_on = λ r q n e. step-le r.0 _ q n e;
  bool_goes_on = λ r q b e. step-le r.0 _ q b e;
  skip_goes_on = skip_goes_on;
  string_skips = string-Skips;
  uint32_takes = λ n r tail fits e. number-Takes n r tail e;
  string_takes =
      λ s r tail e. step-Takes r _ (text_bytes s) tail s (ap take_text e ∙ take_text_bytes s tail);
  int32_takes = λ n r tail fits e.
      step-Takes r _ (int_bytes n) tail n (ap take_int e ∙ take_int_bytes n tail);
  bool_takes =
      λ b r tail e. step-Takes r _ (bool_bytes b) tail b (ap take_bool e ∙ take_bool_bytes b tail);
}
