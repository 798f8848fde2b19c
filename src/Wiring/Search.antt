-- ===== src/Wiring/Search.antt =====
-- A search for the tokens that the modules of an app inject: what a module offers to one that imports
-- it, what is global in an application, and the tokens of each module that are found.
use email_platform_services.Common.{String, Bool, true, false, ◌&&◌, ◌||◌, List, [], ◌∷◌}
use email_platform_services.Wiring.{Module, Modules, name_of, imports_of, provided, injected, has}
use Module.{declared, library}
use Modules.{none, ◌and◌}

unfoldable mutual
  pub offers : Module → String → Bool
  offers (declared name global imports providers controllers exports) t =
      (has t exports
        && has t (provided (declared name global imports providers controllers exports)))
      || reexports exports imports t
  offers (library name global imports factory offered) t = has t offered

  pub reexports : List String → Modules → String → Bool
  reexports exports none t = false
  reexports exports (m and ms) t = (has (name_of m) exports && offers m t) || reexports exports ms t

unfoldable pub imported_in : Modules → String → Bool
unfolding offers
imported_in none t = false
imported_in (m and ms) t = offers m t || imported_in ms t

unfoldable mutual
  unfolding offers

  pub global_in : Module → String → Bool
  global_in (declared name global imports providers controllers exports) t =
      (global && offers (declared name global imports providers controllers exports) t)
      || global_among imports t
  global_in (library name global imports factory offered) t =
      (global && has t offered) || global_among imports t

  pub global_among : Modules → String → Bool
  global_among none t = false
  global_among (m and ms) t = global_in m t || global_among ms t

unfoldable pub resolves : Module → Module → String → Bool
unfolding imported_in global_in
resolves root m t = has t (provided m) || (imported_in (imports_of m) t || global_in root t)

unfoldable pub all_resolved : Module → Module → List String → Bool
unfolding resolves
all_resolved root m [] = true
all_resolved root m (t ∷ ts) = resolves root m t && all_resolved root m ts

-- A test of every module of an application.
unfoldable mutual
  pub everywhere : (Module → Bool) → Module → Bool
  everywhere test (declared name global imports providers controllers exports) =
      test (declared name global imports providers controllers exports)
      && everywhere_in test imports
  everywhere test (library name global imports factory offered) =
      test (library name global imports factory offered) && everywhere_in test imports

  pub everywhere_in : (Module → Bool) → Modules → Bool
  everywhere_in test none = true
  everywhere_in test (m and ms) = everywhere test m && everywhere_in test ms

unfoldable pub is_wired : Module → Module → Bool
unfolding all_resolved
is_wired root m = all_resolved root m (injected m)
