-- ===== src/Wiring.antt =====
-- What the `@Module` declarations of apps/* and packages/foundation say to the container of NestJS:
-- a module's imports, its providers and controllers with the tokens injected into each, and its
-- exports. A token is a text: the description of a symbol, or the name of a class. The children
-- hold the modules of foundation and of each app; `Wiring.Container` is what the container
-- documents.
use email_platform_services.Common.{
  String, Bool, true, false, List, [], ◌∷◌, ◌++◌, map, str_eq, ◌||◌,
}
pub mod Container
pub mod Foundation
pub mod Inbound
pub mod Outbound
pub mod Apps
mod Search
mod Settings
pub mod Laws
pub mod Privacy

-- `{ provide, inject, useFactory }`, or a class with what its constructor takes.
pub record Binding : Type 0 where
  pub provide : String
  pub needs : List String

infix 6 ◌needs◌
abbrev pub ◌needs◌ : String → List String → Binding
token needs tokens = record { provide = token; needs = tokens }

-- A module of this repository: its name, whether it is global, its imports, providers, controllers
-- and exports. A module of a library: its name, whether it is global, the imports and the tokens
-- that its options inject, and the tokens of it that this repository relies on.
mutual
  pub data Module : Type 0 where
    declared : String → Bool → Modules → List Binding → List Binding → List String → Module
    library : String → Bool → Modules → List String → List String → Module

  pub data Modules : Type 0 where
    none : Modules
    ◌and◌ : Module → Modules → Modules

infixr 5 ◌and◌
abbrev pub name_of : Module → String
name_of (declared name global imports providers controllers exports) = name
name_of (library name global imports injected offered) = name

abbrev pub is_global : Module → Bool
is_global (declared name global imports providers controllers exports) = global
is_global (library name global imports injected offered) = global

abbrev pub imports_of : Module → Modules
imports_of (declared name global imports providers controllers exports) = imports
imports_of (library name global imports injected offered) = imports

abbrev pub provided : Module → List String
provided (declared name global imports providers controllers exports) =
    map (λ b. b.provide) providers
provided (library name global imports injected offered) = []

abbrev pub exports_of : Module → List String
exports_of (declared name global imports providers controllers exports) = exports
exports_of (library name global imports injected offered) = []

abbrev pub relied_on : Module → List String
relied_on (declared name global imports providers controllers exports) = []
relied_on (library name global imports injected offered) = offered

abbrev pub all_needs : List Binding → List String
all_needs [] = []
all_needs (b ∷ bs) = b.needs ++ all_needs bs

-- Every token that something in a module is constructed with.
abbrev pub injected : Module → List String
injected (declared name global imports providers controllers exports) =
    all_needs providers ++ all_needs controllers
injected (library name global imports factory offered) = factory

abbrev pub has : String → List String → Bool
has token [] = false
has token (t ∷ tokens) = str_eq token t || has token tokens
