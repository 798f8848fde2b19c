-- ===== src/Tests/Zod.antt =====
-- A validator of environments that has what the code relies on of zod.
use email_platform_services.Common.{
  ℕ, ◌≡◌, ◌≢◌, refl, sym, ap, ◌∙◌, String, str_eq, Bool, true, false, Option, none, some, [], ◌∷◌,
  Dict, lookup, Outcome, ok, throws, plain_error, Thrown, if◌then◌else◌, arith, Bool-cases, inl,
  inr,
}
use package.text.Mathlib.TextEquality.{eq_iff}
use email_platform_services.Config.Shapes.{
  Field, coerce_number, string_min_1, string_url, enum, string_transform, Shape, Value, text,
  number, flag, Schema, Zod,
}

abbrev pub filled : Option String → Option (Value ℕ)
filled none = none
filled (some s) = if str_eq s "" then none else some (text s)

-- Every number is 1 here, and every text an address and a member of an enumeration.
abbrev pub field : Field → Option String → Option (Value ℕ)
field (coerce_number checks) none = none
field (coerce_number checks) (some s) = some (number 1)
field string_min_1 raw = filled raw
field string_url raw = filled raw
field (enum values) raw = filled raw
field (string_transform f) none = none
field (string_transform f) (some s) = some (flag (f s))

filled_if :
    (b : Bool) (s : String) (v : Value ℕ)
    → (if b then none else some (text s)) ≡ some v
    → (b ≡ false) × (v ≡ text s)
filled_if true s v e = cc
filled_if false s v e = (refl, cc)

not_empty : (s : String) → str_eq s "" ≡ false → s ≢ ""
not_empty s e = λ same. ground (arith, eq_iff s "")

pub filled-some :
    (raw : Option String) (v : Value ℕ)
    → filled raw ≡ some v
    → (s : String) × (raw ≡ some s) × (v ≡ text s) × (s ≢ "")
filled-some none v e = cc
filled-some (some s) v e =
    let (full, is_text) = filled_if (str_eq s "") s v e in (s, refl, is_text, not_empty s full)

pub field_transform :
    (f : String → Bool) (raw : Option String) (v : Value ℕ)
    → field (string_transform f) raw ≡ some v
    → (s : String) × (raw ≡ some s) × (v ≡ flag (f s))
field_transform f none v e = cc
field_transform f (some s) v e = (s, refl, cc)

unfoldable pub add : String → Option (Value ℕ) → Option (Dict (Value ℕ)) → Option (Dict (Value ℕ))
add key none rest = none
add key (some v) none = none
add key (some v) (some rest) = some ((key, v) ∷ rest)

unfoldable pub object : Shape → Dict String → Option (Dict (Value ℕ))
unfolding add lookup
object [] env = some []
object ((key, rule) ∷ shape) env = add key (field rule (lookup key env)) (object shape env)

add-some :
    (key : String) (a : Option (Value ℕ)) (rest : Option (Dict (Value ℕ))) (config : Dict (Value ℕ))
    → add key a rest ≡ some config
    → (v : Value ℕ) × (tail : Dict (Value ℕ)) × (a ≡ some v)
      × (rest ≡ some tail)
      × (config ≡ (key, v) ∷ tail)
unfolding add
add-some key none rest config e = cc
add-some key (some v) none config e = cc
add-some key (some v) (some tail) config e = (v, tail, refl, refl, cc)

same_key : (own key : String) → str_eq own key ≡ true → own ≡ key
same_key own key e = ground (arith, eq_iff own key)

first_rule :
    (b : Bool) (r rule : Field) (rest : Option Field)
    → b ≡ true
    → (if b then some r else rest) ≡ some rule
    → r ≡ rule
first_rule b r rule rest e known = ground arith

later_rule :
    (b : Bool) (r : Field) (rest found : Option Field)
    → b ≡ false
    → (if b then some r else rest) ≡ found
    → rest ≡ found
later_rule b r rest found e known = ground arith

pub object_known :
    (shape : Shape) (env : Dict String) (config : Dict (Value ℕ)) (key : String) (rule : Field)
    → object shape env ≡ some config
    → lookup key shape ≡ some rule
    → (v : Value ℕ) × (lookup key config ≡ some v) × (field rule (lookup key env) ≡ some v)
unfolding object lookup
object_known [] env config key rule parsed known = cc
object_known ((own, r) ∷ shape) env config key rule parsed known =
    let (v, tail, made, rest, whole) = add-some own _ _ config parsed in
    elim (Bool-cases (str_eq own key)) [
      | inl here ↦
          let is_rule = first_rule (str_eq own key) r rule (lookup key shape) here known in
          (
            v,
            ap (lookup key) whole ∙ rw (here) refl,
            sym (ap (λ x. field x (lookup key env)) is_rule)
                ∙ ap (λ k. field r (lookup k env)) (sym (same_key own key here))
                ∙ made,
          )
      | inr apart ↦
          let later = later_rule (str_eq own key) r (lookup key shape) _ apart known in
          let (w, held, given) = object_known shape env tail key rule rest later in
          (w, ap (lookup key) whole ∙ rw (apart) held, given)
    ]

unfoldable pub parse : Schema ℕ → Dict String → Outcome (Dict (Value ℕ))
unfolding object
parse schema env = elim (object schema.shape env) [
  | none ↦ throws (plain_error "ZodError")
  | some config ↦ if schema.refinement config then ok config else throws (plain_error "ZodError")
]

checked :
    (b : Bool) (given config : Dict (Value ℕ)) (err : Thrown)
    → (if b then ok given else throws err) ≡ ok config
    → (b ≡ true) × (given ≡ config)
checked true given config err e = (refl, cc)
checked false given config err e = cc

accepted :
    (found : Option (Dict (Value ℕ))) (refinement : Dict (Value ℕ) → Bool) (config : Dict (Value ℕ))
    → elim found [
      | none ↦ throws (plain_error "ZodError")
      | some given ↦ if refinement given then ok given else throws (plain_error "ZodError")
    ]
      ≡ ok config
    → (found ≡ some config) × (refinement config ≡ true)
accepted none refinement config e = cc
accepted (some given) refinement config e =
    let (holds, same) = checked (refinement given) given config _ e in
    (ap some same, ap refinement (sym same) ∙ holds)

pub parse_some :
    (schema : Schema ℕ) (env : Dict String) (config : Dict (Value ℕ))
    → parse schema env ≡ ok config
    → (object schema.shape env ≡ some config) × (schema.refinement config ≡ true)
unfolding parse
parse_some schema env config e = accepted (object schema.shape env) schema.refinement config e

abbrev pub zod : Zod
zod = record {
  Number = ℕ;
  nonzero = λ n. true;
  field = field;
  parse = parse;
  field_min_1 = filled-some;
  field_url =
      λ raw v e. let (s, given, is_text, filled) = filled-some raw v e in (s, given, is_text);
  field_transform = field_transform;
  parse_known = λ schema env config key rule e.
      object_known schema.shape env config key rule (parse_some schema env config e).0;
  parse_refined = λ schema env config e. (parse_some schema env config e).1;
}

-- What an environment parses to, or nothing.
unfoldable pub parsed : Schema ℕ → Dict String → Dict (Value ℕ)
unfolding parse
parsed schema env = elim (parse schema env) [ ok config ↦ config | throws err ↦ [] ]
