-- ===== src/Wiring/Privacy.antt =====
-- What the modules keep to themselves, under the encapsulation that the container documents: the
-- pool of connections to Postgres.
use email_platform_services.Common.{String, ◌≡◌, refl, true, not, inl, inr, arith, List}
use email_platform_services.Config.Apps.{App}
use email_platform_services.Wiring.{Module, Modules, name_of, has}
use email_platform_services.Wiring.Container.{In, Part, Container, Sealed}
use email_platform_services.Wiring.Search.{offers, reexports, everywhere}
use email_platform_services.Wiring.Laws.{everywhere-Part}
use email_platform_services.Wiring.Apps.{root_module}
use Module.{declared, library}
use Modules.{none, ◌and◌}
use In.{first, later}
use App.{auth, sender, parser, audience, notifier, gateway}

module _ (c : Container) (OfLibrary : String → Type 0) (closed : Sealed c OfLibrary) (t : String)
    (repository_own : ¬ OfLibrary t) where
  mutual
    unfolding offers

    Offers-offers : (m : Module) → c.Offers m t → offers m t ≡ true
    Offers-offers (declared name global imports providers controllers exports) o =
        let m = declared name global imports providers controllers exports in
        elim (closed.only_exported m t o) [
          | inl other ↦ absurd (repository_own other)
          | inr (inl found) ↦ ground arith
          | inr (inr (inl mine)) ↦ ground arith
          | inr (inr (inr (i, inside, named, theirs))) ↦
              let passed = reexported-offers exports imports i inside named theirs in ground arith
        ]
    Offers-offers (library name global imports factory offered) o =
        elim (closed.only_exported (library name global imports factory offered) t o) [
          | inl other ↦ absurd (repository_own other)
          | inr (inl found) ↦ found
          | inr (inr (inl mine)) ↦ ground arith
          | inr (inr (inr (i, inside, named, theirs))) ↦ ground arith
        ]

    reexported-offers :
        (exports : List String) (ms : Modules) (i : Module)
        → In i ms
        → has (name_of i) exports ≡ true
        → c.Offers i t
        → reexports exports ms t ≡ true
    reexported-offers exports none i p named o = elim p [ ]
    reexported-offers exports (m and ms) _ first named o =
        let theirs = Offers-offers m o in ground arith
    reexported-offers exports (m and ms) i (later p) named o =
        let passed = reexported-offers exports ms i p named o in ground arith

check_pool : (app : App) → everywhere (λ m. not (offers m "PG_POOL")) (root_module app) ≡ true
unfolding everywhere offers
check_pool auth = refl
check_pool sender = refl
check_pool parser = refl
check_pool audience = refl
check_pool notifier = refl
check_pool gateway = refl

-- With a container that keeps the rules of its documentation, and where no library makes a token of
-- that name, no module of any of the six apps hands the pool of connections to Postgres to a module
-- that imports it.
pub pool-IsPrivate :
    (c : Container) (OfLibrary : String → Type 0)
    → Sealed c OfLibrary
    → ¬ OfLibrary "PG_POOL"
    → (app : App) (m : Module) → Part m (root_module app)
    → ¬ c.Offers m "PG_POOL"
pool-IsPrivate c OfLibrary closed own app m p offered =
    let found = Offers-offers c OfLibrary closed "PG_POOL" own m offered in
    let missing =
      everywhere-Part (λ m. not (offers m "PG_POOL")) m (root_module app) (check_pool app) p in
    ground arith
