-- ===== src/Cache/Namespace.antt =====
-- Keys of different namespaces are different.
use Prim.Native.String.{◌∷◌ as prepend}
use Prim.Native.Char.{Char, code}
use email_platform_services.Common.{String, ◌≡◌, refl, sym, ap, ◌∙◌, ◌≢◌}
use email_platform_services.Cache.{prefix_key}
use text.Mathlib.TextLemmas.{nil-append, cons-append, head-eq_of_cons-eq, tail-eq_of_cons-eq}
use mathlib.Core.Path.{ap₂}

-- No ":" in the text.
abbrev pub HasNoColon : String → Type 0
HasNoColon String.[] = Unit
HasNoColon (String.◌∷◌ c s) = (code c ≢ 58) × HasNoColon s

prefix_key-nil : (k : String) → prefix_key "" k ≡ prepend ":" k
unfolding prefix_key
prefix_key-nil k = rw (nil-append, cons-append, nil-append)

prefix_key-cons :
    (c : Char) (n k : String) → prefix_key (prepend c n) k ≡ prepend c (prefix_key n k)
unfolding prefix_key
prefix_key-cons c n k = simp cons-append

-- A namespace without a colon, and the key, are determined by the prefixed key.
pub prefix_key-injective :
    (n m k j : String)
    → HasNoColon n
    → HasNoColon m
    → prefix_key n k ≡ prefix_key m j
    → (n ≡ m) × (k ≡ j)
prefix_key-injective String.[] String.[] k j hn hm e =
    (refl, tail-eq_of_cons-eq (sym (prefix_key-nil k) ∙ e ∙ prefix_key-nil j))
prefix_key-injective String.[] (String.◌∷◌ d m) k j hn hm e =
    absurd (
      hm.0
        (ap code (sym (head-eq_of_cons-eq (sym (prefix_key-nil k) ∙ e ∙ prefix_key-cons d m j)))))
prefix_key-injective (String.◌∷◌ c n) String.[] k j hn hm e =
    absurd
      (hn.0 (ap code (head-eq_of_cons-eq (sym (prefix_key-cons c n k) ∙ e ∙ prefix_key-nil j))))
prefix_key-injective (String.◌∷◌ c n) (String.◌∷◌ d m) k j hn hm e =
    let f = sym (prefix_key-cons c n k) ∙ e ∙ prefix_key-cons d m j in
    let (same, key) = prefix_key-injective n m k j hn.1 hm.1 (tail-eq_of_cons-eq f) in
    (ap₂ prepend (head-eq_of_cons-eq f) same, key)
