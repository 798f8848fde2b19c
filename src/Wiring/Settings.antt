-- ===== src/Wiring/Settings.antt =====
-- The configuration's module among the others: what `createConfigModule` returns, as a module.
use email_platform_services.Common.{
  ℕ, String, ◌≡◌, refl, ap, true, Dict, some, List, [], ◌∷◌, map, ok,
}
use email_platform_services.Config.Shapes.{Value, Schema, Zod}
use email_platform_services.Config.Load.{
  Process, NarrowPort, use_value, use_factory, DynamicModule, load_config, create_config_module,
}
use email_platform_services.Wiring.{◌needs◌, Module}
use email_platform_services.Wiring.Foundation.{alone, binding_of, from_dynamic, config_module}
use Module.{declared}

bindings_of :
    {N : Type 0} (token : String) (ports : List (NarrowPort N))
    → map binding_of (map (λ n. use_factory n.port token n.slice) ports)
      ≡ map (λ port. port needs (token ∷ [])) (map (λ n. n.port) ports)
unfolding binding_of
bindings_of token [] = refl
bindings_of token (n ∷ ports) =
    ap (λ bs. (n.port needs (token ∷ [])) ∷ bs) (bindings_of token ports)

module _ (zod : Zod) (schema_at : ℕ → Schema zod.Number) where
  -- When the configuration loads, `createConfigModule` returns a module, and it binds and exports
  -- the tokens of `config_module`, whatever the values of the configuration are.
  create_config_module-config_module :
      (schema : ℕ) (token : String) (ports : List (NarrowPort zod.Number))
      (p q : Process zod.Number) (config : Dict (Value zod.Number))
      → load_config zod schema_at schema p ≡ (ok config, q)
      → (d : DynamicModule zod.Number) × (create_config_module zod schema_at schema token
            (some ports)
            p
          ≡ (ok d, q))
        × (from_dynamic d ≡ config_module token (map (λ n. n.port) ports))
  unfolding from_dynamic create_config_module
  create_config_module-config_module schema token ports p q config loads =
      let made : DynamicModule zod.Number = record {
        providers = use_value token config ∷ map (λ n. use_factory n.port token n.slice) ports;
        exports = token ∷ map (λ n. n.port) ports;
      } in
      (
        made,
        rw (create_config_module, loads) (ap (λ r. (ok made, r.1)) loads),
        ap
            (λ bs.
              declared "ConfigModuleHolder" true alone ((token needs []) ∷ bs) []
                (token ∷ map (λ n. n.port) ports))
            (bindings_of token ports),
      )
