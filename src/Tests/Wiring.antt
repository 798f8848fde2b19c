-- ===== src/Tests/Wiring.antt =====
-- A container with the rules of `Wiring.Container` and no others, and the modules of auth in it.
use email_platform_services.Common.{String, ◌≡◌, refl, true, ◌&&◌, ◌⊎◌, inl, inr, both}
use email_platform_services.Config.Apps.{App}
use email_platform_services.Wiring.{
  Module, name_of, is_global, imports_of, provided, exports_of, relied_on, has,
}
use email_platform_services.Wiring.Container.{In, Part, Container, Sealed}
use email_platform_services.Wiring.Foundation.{persistence_module}
use email_platform_services.Wiring.Inbound.{auth_grpc}
use email_platform_services.Wiring.Apps.{root_module}
use email_platform_services.Wiring.Outbound.{auth_persistence}
use email_platform_services.Wiring.Laws.{app-Resolves}
use email_platform_services.Wiring.Privacy.{pool-IsPrivate}
use In.{first, later}
use Part.{whole, within}

data Offered : Module → String → Type 0 where
  by_export :
      {m : Module} {t : String}
      → has t (exports_of m) ≡ true
      → has t (provided m) ≡ true
      → Offered m t
  by_reexport :
      {m i : Module} {t : String}
      → In i (imports_of m)
      → has (name_of i) (exports_of m) ≡ true
      → Offered i t
      → Offered m t
  by_library : {m : Module} {t : String} → has t (relied_on m) ≡ true → Offered m t

data Resolved (root m : Module) (t : String) : Type 0 where
  by_own : has t (provided m) ≡ true → Resolved root m t
  by_import : {i : Module} → In i (imports_of m) → Offered i t → Resolved root m t
  by_global : {g : Module} → Part g root → is_global g ≡ true → Offered g t → Resolved root m t

abbrev container : Container
container = record {
  Offers = Offered;
  Resolves = Resolved;
  exported = λ m t listed own. by_export listed own;
  reexported = λ m i t inside named offer. by_reexport inside named offer;
  documented = λ m t found. by_library found;
  own = λ root m t found. by_own found;
  imported = λ root m i t inside offer. by_import inside offer;
  globally = λ root m g t part global offer. by_global part global offer;
}

data NoToken (t : String) : Type 0 where

abbrev only_offered :
    (m : Module) (t : String)
    → Offered m t
    → NoToken t
      ⊎ (has t (relied_on m) ≡ true)
      ⊎ ((has t (exports_of m) && has t (provided m)) ≡ true)
      ⊎ ((i : Module) × In i (imports_of m) × (has (name_of i) (exports_of m) ≡ true) × Offered i t)
only_offered m t (by_export listed own) =
    inr (inr (inl (both (has t (exports_of m)) (has t (provided m)) listed own)))
only_offered m t (by_reexport {i = i} inside named offer) =
    inr (inr (inr (i, inside, named, offer)))
only_offered m t (by_library found) = inr (inl found)

abbrev sealed_container : Sealed container NoToken
sealed_container = record { only_exported = only_offered }

app-Resolves_example :
    Resolved (root_module App.auth) (auth_grpc auth_persistence) "USER_REPOSITORY_PORT"
app-Resolves_example =
    app-Resolves container App.auth (auth_grpc auth_persistence) "USER_REPOSITORY_PORT"
      (within (later (later (later first))) whole) refl

pool-IsPrivate_example : ¬ Offered persistence_module "PG_POOL"
pool-IsPrivate_example =
    pool-IsPrivate container NoToken sealed_container (λ no. elim no [ ]) App.auth
      persistence_module (within (later first) (within (later first) whole))
