-- ===== src/Config/Cache.antt =====
-- Runs of `loadConfig` interleaved with changes of `process.env`.
use email_platform_services.Common.{ℕ, ◌≡◌, refl, String, some, Dict, ok, arith}
use email_platform_services.Config.Shapes.{Value, Schema, Zod}
use email_platform_services.Config.Load.{Process, cached_at, load_config}

module _ (zod : Zod) (schema_at : ℕ → Schema zod.Number) where
  -- What may happen in a process that never resets its cache.
  pub data Step : Process zod.Number → Process zod.Number → Type 0 where
    loads : (schema : ℕ) (p : Process zod.Number) → Step p (load_config zod schema_at schema p).1
    changes_env : (env : Dict String) (p : Process zod.Number) → Step p (record p { env = env })

  pub data Reach : Process zod.Number → Process zod.Number → Type 0 where
    here : (p : Process zod.Number) → Reach p p
    onward : (p q r : Process zod.Number) → Step p q → Reach q r → Reach p r

  load_config-caches :
      (schema : ℕ) (p : Process zod.Number) (config : Dict (Value zod.Number))
      → (load_config zod schema_at schema p).0 ≡ ok config
      → cached_at schema (load_config zod schema_at schema p).1.cache ≡ some config
  unfolding load_config cached_at
  load_config-caches schema p config e = ground arith

  Step-cached :
      (p q : Process zod.Number) (schema : ℕ) (config : Dict (Value zod.Number))
      → Step p q
      → cached_at schema p.cache ≡ some config
      → cached_at schema q.cache ≡ some config
  unfolding load_config cached_at
  Step-cached _ _ schema config (loads other p) e = ground arith
  Step-cached _ _ schema config (changes_env env p) e = e

  Reach-cached :
      (p q : Process zod.Number) (schema : ℕ) (config : Dict (Value zod.Number))
      → Reach p q
      → cached_at schema p.cache ≡ some config
      → cached_at schema q.cache ≡ some config
  Reach-cached _ _ schema config (here p) e = e
  Reach-cached _ _ schema config (onward p r q step rest) e =
      Reach-cached r q schema config rest (Step-cached p r schema config step e)

  load_config-cached :
      (schema : ℕ) (p : Process zod.Number) (config : Dict (Value zod.Number))
      → cached_at schema p.cache ≡ some config
      → load_config zod schema_at schema p ≡ (ok config, p)
  unfolding load_config
  load_config-cached schema p config e = rw (load_config, e) refl

  -- Once a schema is loaded, it loads the same values for as long as the cache is not reset,
  -- whatever happens to the environment and whichever schemas are loaded in between, and loading
  -- it again changes nothing.
  pub load_config-Reach :
      (schema : ℕ) (p q : Process zod.Number) (config : Dict (Value zod.Number))
      → (load_config zod schema_at schema p).0 ≡ ok config
      → Reach (load_config zod schema_at schema p).1 q
      → load_config zod schema_at schema q ≡ (ok config, q)
  load_config-Reach schema p q config e run =
      load_config-cached schema q config
        (Reach-cached _ q schema config run (load_config-caches schema p config e))
