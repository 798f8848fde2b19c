-- ===== src/Common/Results.antt =====
-- A settled promise: a value, or what was thrown. `Thrown` has a constructor for each kind of
-- value that the HTTP layer tells apart by `instanceof`, `name` and `'cause' in err`.
use Prim.Native.Nat.{ℕ}
use Prim.Native.String.{String, ◌++◌ as append}
use mathlib.Core.Path.{◌≡◌, refl, ap}
use native.Mathlib.Omega.{arith}
use mathlib.Core.Logic.{◌⊎◌, inl, inr}
use mathlib.Core.Bool.{Bool, false}
use mathlib.Core.Option.{Option, none}

-- An `Error` that is none of the `HttpClientError` classes. `cause` is `some` when the object has
-- the property; opaque values are held as their text.
pub record NativeError : Type 0 where
  pub name : String
  pub message : String
  pub is_type_error : Bool
  pub cause : Option String

pub data Thrown : Type 0 where
  http_error : (status : ℕ) (url : String) → Thrown
  timeout_error : (url : String) (timeout_ms : ℕ) → Thrown
  network_error : (url : String) (cause : Option String) → Thrown
  circuit_open_error : (api : String) → Thrown
  native_error : NativeError → Thrown
  not_error : (text : String) → Thrown
  undefined : Thrown

pub data Outcome {ℓ} (A : Type ℓ) : Type ℓ where
  ok : A → Outcome A
  throws : Thrown → Outcome A

-- `new Error(message)`.
abbrev pub plain_error : String → Thrown
plain_error message =
    native_error (record { name = "Error"; message = message; is_type_error = false; cause = none })

pub Outcome-cases {ℓ} :
    {A : Type ℓ} (o : Outcome A) → ((a : A) × (o ≡ ok a)) ⊎ ((e : Thrown) × (o ≡ throws e))
Outcome-cases (ok a) = inl (a, refl)
Outcome-cases (throws e) = inr (e, refl)

-- `const result = await call; return reply(result);`.
unfoldable pub answer : {A B S : Type 0} → (A → B) → Outcome A × S → Outcome B × S
answer reply (ok result, s) = (ok (reply result), s)
answer reply (throws err, s) = (throws err, s)

pub answer-ok :
    {A B S : Type 0} (reply : A → B) (p : Outcome A × S) (a : A)
    → p.0 ≡ ok a
    → answer reply p ≡ (ok (reply a), p.1)
unfolding answer
answer-ok reply (ok b, s) a e = ground arith
answer-ok reply (throws err, s) a e = cc

-- An `async` method that is only `throw new Error(...)` of this form.
abbrev pub not_implemented : {A S : Type 0} → String → S → Outcome A × S
not_implemented name s = (throws (plain_error (append name " not yet implemented")), s)

pub answer-eq-ok :
    {A B S : Type 0} (reply : A → B) (p : Outcome A × S) (b : B)
    → (answer reply p).0 ≡ ok b
    → (a : A) × (p.0 ≡ ok a) × (b ≡ reply a)
unfolding answer
answer-eq-ok reply (ok a, s) b e = (a, refl, ground arith)
answer-eq-ok reply (throws err, s) b e = cc

-- Two replies in a row.
pub answer-answer :
    {A B C S : Type 0} (f : A → B) (g : B → C) (h : A → C) (p : Outcome A × S)
    → ((a : A) → g (f a) ≡ h a)
    → answer g (answer f p) ≡ answer h p
unfolding answer
answer-answer f g h (ok a, s) same = ap (λ c. (ok c, s)) (same a)
answer-answer f g h (throws err, s) same = refl

pub answer_same : {A S : Type 0} (p : Outcome A × S) → answer (λ a. a) p ≡ p
unfolding answer
answer_same (ok a, s) = refl
answer_same (throws err, s) = refl

-- `const first = await call; return next(first);`.
unfoldable pub await : {A B S : Type 0} → Outcome A × S → (A → S → Outcome B × S) → Outcome B × S
await (ok a, s) next = next a s
await (throws err, s) next = (throws err, s)

pub await-eq-ok :
    {A B S : Type 0} (p : Outcome A × S) (next : A → S → Outcome B × S) (b : B)
    → (await p next).0 ≡ ok b
    → (a : A) × (p.0 ≡ ok a) × ((next a p.1).0 ≡ ok b)
unfolding await
await-eq-ok (ok a, s) next b e = (a, refl, e)
await-eq-ok (throws err, s) next b e = cc

pub await-ok :
    {A B S : Type 0} (p : Outcome A × S) (next : A → S → Outcome B × S) (a : A)
    → p.0 ≡ ok a
    → await p next ≡ next a p.1
unfolding await
await-ok (ok b, s) next a e = let same : b ≡ a = cc in ap (λ x. next x s) same
await-ok (throws err, s) next a e = cc
