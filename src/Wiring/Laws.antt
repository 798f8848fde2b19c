-- ===== src/Wiring/Laws.antt =====
-- The wiring of the apps: a search for the tokens that the modules of an app inject, what finding
-- one says under the rules of the container, and what it finds in each app.
use email_platform_services.Common.{
  String, ◌≡◌, refl, Bool, true, ◌&&◌, ◌||◌, inl, inr, arith, eq_iff, subst, sym, str_eq,
  both-first, both-second, either, List, [], ◌∷◌,
}
use email_platform_services.Config.Apps.{App}
use email_platform_services.Wiring.{
  Module, Modules, name_of, is_global, imports_of, provided, exports_of, injected, has,
}
use email_platform_services.Wiring.Container.{In, Part, Container}
use email_platform_services.Wiring.Search.{
  offers, reexports, imported_in, global_in, global_among, resolves, all_resolved, everywhere,
  everywhere_in, is_wired,
}
use email_platform_services.Wiring.Apps.{root_module}
use Module.{declared, library}
use Modules.{none, ◌and◌}
use In.{first, later}
use Part.{whole, within}
use App.{auth, sender, parser, audience, notifier, gateway}

all_resolved-has :
    (root m : Module) (ts : List String) (t : String)
    → all_resolved root m ts ≡ true
    → has t ts ≡ true
    → resolves root m t ≡ true
unfolding all_resolved
all_resolved-has root m [] t h found = ground arith
all_resolved-has root m (s ∷ ts) t h found = elim (either (str_eq t s) (has t ts) found) [
  | inl same ↦
      subst (λ x. resolves root m x ≡ true) (sym ((eq_iff t s).0 same))
        (both-first (resolves root m s) (all_resolved root m ts) h)
  | inr among ↦
      all_resolved-has root m ts t (both-second (resolves root m s) (all_resolved root m ts) h)
        among
]

is_wired-has :
    (root m : Module) (t : String)
    → is_wired root m ≡ true
    → has t (injected m) ≡ true
    → resolves root m t ≡ true
unfolding is_wired
is_wired-has root m t h found = all_resolved-has root m (injected m) t h found

module _ (c : Container) where
  mutual
    unfolding offers

    offers-Offers : (m : Module) (t : String) → offers m t ≡ true → c.Offers m t
    offers-Offers (declared name global imports providers controllers exports) t h =
        let m = declared name global imports providers controllers exports in
        elim (either (has t exports && has t (provided m)) (reexports exports imports t) h) [
          | inl own ↦
              c.exported m t (both-first (has t exports) (has t (provided m)) own)
                (both-second (has t exports) (has t (provided m)) own)
          | inr passed ↦ reexports-Offers m imports t (λ i p. p) passed
        ]
    offers-Offers (library name global imports factory offered) t h =
        c.documented (library name global imports factory offered) t h

    reexports-Offers :
        (m : Module) (ms : Modules) (t : String)
        → ((i : Module) → In i ms → In i (imports_of m))
        → reexports (exports_of m) ms t ≡ true
        → c.Offers m t
    reexports-Offers m none t inside h = ground arith
    reexports-Offers m (i and ms) t inside h =
        elim (either (has (name_of i) (exports_of m) && offers i t) (reexports (exports_of m) ms t)
          h) [
            | inl here ↦
                c.reexported m i t (inside i first)
                  (both-first (has (name_of i) (exports_of m)) (offers i t) here)
                  (offers-Offers i t
                    (both-second (has (name_of i) (exports_of m)) (offers i t) here))
            | inr there ↦ reexports-Offers m ms t (λ j p. inside j (later p)) there
          ]

  imported_in-Offers :
      (root m : Module) (ms : Modules) (t : String)
      → ((i : Module) → In i ms → In i (imports_of m))
      → imported_in ms t ≡ true
      → c.Resolves root m t
  unfolding imported_in
  imported_in-Offers root m none t inside h = ground arith
  imported_in-Offers root m (i and ms) t inside h =
      elim (either (offers i t) (imported_in ms t) h) [
        | inl here ↦ c.imported root m i t (inside i first) (offers-Offers i t here)
        | inr there ↦ imported_in-Offers root m ms t (λ j p. inside j (later p)) there
      ]

Part-import : {m g root : Module} → Part g root → In m (imports_of g) → Part m root
Part-import whole i = within i whole
Part-import (within j p) i = within j (Part-import p i)

module _ (c : Container) (root : Module) where
  -- What a part of the application that is global offers is resolved in all of it.
  global_offer :
      (m g : Module) (t : String)
      → Part g root
      → (is_global g && offers g t) ≡ true
      → c.Resolves root m t
  global_offer m g t p h =
      c.globally root m g t p (both-first (is_global g) (offers g t) h)
        (offers-Offers c g t (both-second (is_global g) (offers g t) h))

  mutual
    unfolding global_in

    global_in-Resolves :
        (m g : Module) (t : String) → Part g root → global_in g t ≡ true → c.Resolves root m t
    global_in-Resolves m (declared name global imports providers controllers exports) t p h =
        let g = declared name global imports providers controllers exports in
        elim (either (global && offers g t) (global_among imports t) h) [
          | inl here ↦ global_offer m g t p here
          | inr there ↦ global_among-Resolves m g imports t p (λ i q. q) there
        ]
    global_in-Resolves m (library name global imports factory offered) t p h =
        let g = library name global imports factory offered in
        elim (either (global && has t offered) (global_among imports t) h) [
          | inl here ↦ global_offer m g t p here
          | inr there ↦ global_among-Resolves m g imports t p (λ i q. q) there
        ]

    global_among-Resolves :
        (m g : Module) (ms : Modules) (t : String)
        → Part g root
        → ((i : Module) → In i ms → In i (imports_of g))
        → global_among ms t ≡ true
        → c.Resolves root m t
    global_among-Resolves m g none t p inside h = ground arith
    global_among-Resolves m g (i and ms) t p inside h =
        elim (either (global_in i t) (global_among ms t) h) [
          | inl here ↦ global_in-Resolves m i t (Part-import p (inside i first)) here
          | inr there ↦ global_among-Resolves m g ms t p (λ j q. inside j (later q)) there
        ]

  resolves-Resolves : (m : Module) (t : String) → resolves root m t ≡ true → c.Resolves root m t
  unfolding resolves
  resolves-Resolves m t h =
      elim (either (has t (provided m)) (imported_in (imports_of m) t || global_in root t) h) [
        | inl mine ↦ c.own root m t mine
        | inr other ↦ elim (either (imported_in (imports_of m) t) (global_in root t) other) [
          | inl near ↦ imported_in-Offers c root m (imports_of m) t (λ i p. p) near
          | inr far ↦ global_in-Resolves m root t whole far
        ]
      ]

module _ (test : Module → Bool) where
  everywhere-first : (m : Module) → everywhere test m ≡ true → test m ≡ true
  unfolding everywhere
  everywhere-first (declared name global imports providers controllers exports) h =
      both-first _ (everywhere_in test imports) h
  everywhere-first (library name global imports factory offered) h =
      both-first _ (everywhere_in test imports) h

  everywhere-second :
      (m : Module) → everywhere test m ≡ true → everywhere_in test (imports_of m) ≡ true
  unfolding everywhere
  everywhere-second (declared name global imports providers controllers exports) h =
      both-second _ (everywhere_in test imports) h
  everywhere-second (library name global imports factory offered) h =
      both-second _ (everywhere_in test imports) h

  everywhere_in-In :
      (m : Module) (ms : Modules)
      → everywhere_in test ms ≡ true
      → In m ms
      → everywhere test m ≡ true
  unfolding everywhere
  everywhere_in-In m none h p = elim p [ ]
  everywhere_in-In _ (m and ms) h first = both-first (everywhere test m) (everywhere_in test ms) h
  everywhere_in-In m (i and ms) h (later p) =
      everywhere_in-In m ms (both-second (everywhere test i) (everywhere_in test ms) h) p

  everywhere-below : (m r : Module) → everywhere test r ≡ true → Part m r → everywhere test m ≡ true
  everywhere-below m _ h whole = h
  everywhere-below m r h (within {i = i} j p) =
      everywhere-below m i (everywhere_in-In i (imports_of r) (everywhere-second r h) j) p

  -- A test that holds everywhere in an application holds of each part of it.
  pub everywhere-Part : (m r : Module) → everywhere test r ≡ true → Part m r → test m ≡ true
  everywhere-Part m r h p = everywhere-first m (everywhere-below m r h p)

check_app : (app : App) → everywhere (is_wired (root_module app)) (root_module app) ≡ true
unfolding everywhere is_wired
check_app auth = refl
check_app sender = refl
check_app parser = refl
check_app audience = refl
check_app notifier = refl
check_app gateway = refl

-- With a container that keeps the rules of its documentation, every token that a provider, a
-- controller or the options of a module inject is resolved in that module, in each of the six apps.
pub app-Resolves :
    (c : Container) (app : App) (m : Module) (t : String)
    → Part m (root_module app)
    → has t (injected m) ≡ true
    → c.Resolves (root_module app) m t
app-Resolves c app m t p found =
    let root = root_module app in
    resolves-Resolves c root m t
      (is_wired-has root m t (everywhere-Part (is_wired root) m root (check_app app) p) found)
