-- ===== src/Wiring/Container.antt =====
-- The container of NestJS, code that is not in this repository, as its documentation of modules
-- describes it: `Offers m t` says that a module which imports m gets the token t from it, and
-- `Resolves root m t` that t can be injected into m in the application of the module root.
use email_platform_services.Common.{String, ◌≡◌, true, ◌&&◌, ◌⊎◌}
use email_platform_services.Wiring.{
  Module, Modules, name_of, is_global, imports_of, provided, exports_of, relied_on, has,
}

pub data In (m : Module) : Modules → Type 0 where
  first : {ms : Modules} → In m (Modules.◌and◌ m ms)
  later : {i : Module} {ms : Modules} → In m ms → In m (Modules.◌and◌ i ms)

-- A module is part of an application if its root is that module or imports a module with that part.
pub data Part (m : Module) : Module → Type 0 where
  whole : Part m m
  within : {i root : Module} → In i (imports_of root) → Part m i → Part m root

pub record Container : Type 1 where
  pub Offers : Module → String → Type 0
  pub Resolves : Module → Module → String → Type 0
  -- An exported provider of its own, what a module whose name is exported offers, and what the
  -- documentation of a library's module says.
  pub exported :
      (m : Module) (t : String)
      → has t (exports_of m) ≡ true
      → has t (provided m) ≡ true
      → Offers m t
  pub reexported :
      (m i : Module) (t : String)
      → In i (imports_of m)
      → has (name_of i) (exports_of m) ≡ true
      → Offers i t
      → Offers m t
  pub documented : (m : Module) (t : String) → has t (relied_on m) ≡ true → Offers m t
  -- A provider of its own, what an imported module offers, and what a global module offers.
  pub own : (root m : Module) (t : String) → has t (provided m) ≡ true → Resolves root m t
  pub imported :
      (root m i : Module) (t : String) → In i (imports_of m) → Offers i t → Resolves root m t
  pub globally :
      (root m g : Module) (t : String)
      → Part g root
      → is_global g ≡ true
      → Offers g t
      → Resolves root m t

-- Encapsulation: a module hands on nothing else. `OfLibrary` are the tokens that the libraries make.
pub record Sealed (c : Container) (OfLibrary : String → Type 0) : Type 0 where
  pub only_exported :
      (m : Module) (t : String)
      → c.Offers m t
      → OfLibrary t
        ⊎ (has t (relied_on m) ≡ true)
        ⊎ ((has t (exports_of m) && has t (provided m)) ≡ true)
        ⊎ ((i : Module) × In i (imports_of m)
            × (has (name_of i) (exports_of m) ≡ true)
            × c.Offers i t)
