-- ===== src/Vendors/Modules/Laws.antt =====
-- The clients of the vendors get the address and the secret of their app's environment.
use email_platform_services.Common.{
  ◌≡◌, ◌≢◌, refl, ap, ◌∙◌, String, some, Dict, lookup, spread, insert, ok,
}
use email_platform_services.Config.Shapes.{Value, text, Zod, string_min_1, string_url}
use email_platform_services.Config.Schemas.{spread_all}
use email_platform_services.Config.Laws.{schema_of}
use email_platform_services.Http.Provider.{
  HttpClientDeps, http_client_provider, truthy, build_deps, base_url_of, cb_options,
}
use email_platform_services.Vendors.Modules.{
  Vendor, telegram, cloudfn, appstorespy, vendor_app, base_url_key, secret_key, vendor_opts,
  vendor_client,
}

module _ (zod : Zod) where
  -- What a vendor's client is made of, for an address and a secret.
  built :
      (vendor : Vendor) (config : Dict (Value zod.Number)) (url secret : Value zod.Number)
      → lookup (base_url_key vendor) config ≡ some url
      → lookup (secret_key vendor) config ≡ some secret
      → (deps : HttpClientDeps zod.Number) × (vendor_client vendor config ≡ ok (deps, some secret))
        × (deps.base_url ≡ some url)
        × (deps.cb ≡ record { consecutive_threshold = 5; half_open_after_ms = 30000 })
        × (deps.default_timeout_ms ≡ 5000)
  unfolding vendor_client vendor_opts http_client_provider truthy build_deps base_url_of cb_options
  built telegram config url secret found held =
      (_, ap (λ s. ok (build_deps (vendor_opts telegram) config, s)) held, found, refl, refl)
  built cloudfn config url secret found held =
      (_, ap (λ s. ok (build_deps (vendor_opts cloudfn) config, s)) held, found, refl, refl)
  built appstorespy config url secret found held =
      (_, ap (λ s. ok (build_deps (vendor_opts appstorespy) config, s)) held, found, refl, refl)

  known_fields :
      (vendor : Vendor)
      → (lookup (base_url_key vendor) (schema_of zod (vendor_app vendor)).shape ≡ some string_url)
        × (lookup (secret_key vendor) (schema_of zod (vendor_app vendor)).shape ≡ some string_min_1)
  unfolding lookup spread spread_all insert
  known_fields telegram = (refl, refl)
  known_fields cloudfn = (refl, refl)
  known_fields appstorespy = (refl, refl)

  -- When the environment of a vendor's app parses, the vendor's client is built, with the address
  -- that the environment has, a secret that is not empty, the default breaker and timeout.
  pub vendor_client_built :
      (vendor : Vendor) (env : Dict String) (config : Dict (Value zod.Number))
      → zod.parse (schema_of zod (vendor_app vendor)) env ≡ ok config
      → (deps : HttpClientDeps zod.Number) × (url secret : String) × (vendor_client vendor config
          ≡ ok (deps, some (text secret)))
        × (lookup (base_url_key vendor) env ≡ some url)
        × (deps.base_url ≡ some (text url))
        × (lookup (secret_key vendor) env ≡ some secret)
        × (secret ≢ "")
        × (deps.cb ≡ record { consecutive_threshold = 5; half_open_after_ms = 30000 })
        × (deps.default_timeout_ms ≡ 5000)
  vendor_client_built vendor env config parsed =
      let schema = schema_of zod (vendor_app vendor) in
      let (url_known, secret_known) = known_fields vendor in
      let (url_v, url_held, url_made) = zod.parse_known schema env config _ _ parsed url_known in
      let (url, url_read, url_text) = zod.field_url _ url_v url_made in
      let (secret_v, held, made) = zod.parse_known schema env config _ _ parsed secret_known in
      let (secret, read, is_text, filled) = zod.field_min_1 _ secret_v made in
      let (deps, client, address, breaker, timeout) =
        built vendor config (text url) (text secret) (url_held ∙ ap some url_text)
          (held ∙ ap some is_text) in
      (deps, url, secret, client, url_read, address, read, filled, breaker, timeout)
