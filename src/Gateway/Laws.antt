-- ===== src/Gateway/Laws.antt =====
-- A strict gateway is not open to every origin.
use email_platform_services.Common.{
  ◌≡◌, ◌≢◌, refl, String, str_eq, false, some, Dict, lookup, map, ok, arith, List,
}
use package.text.Mathlib.TextEquality.{eq_iff}
use email_platform_services.Config.Shapes.{Value, text, Zod}
use email_platform_services.Config.Apps.{App}
use email_platform_services.Config.Laws.{schema_of, gateway_cors}
use email_platform_services.Gateway.{listed, cors_origin}

not_star : (origins : String) → origins ≢ "*" → str_eq origins "*" ≡ false
not_star origins apart = ground (arith, eq_iff origins "*")

cors_origin-listed :
    (split : String → String → List String) (trim : String → String) (origins : String)
    → origins ≢ "*"
    → cors_origin split trim origins ≡ listed (map trim (split "," origins))
unfolding cors_origin
cors_origin-listed split trim origins apart = rw (not_star origins apart) refl

-- A gateway whose environment parses, with `CORS_STRICT` set to "true", allows only the origins
-- that `CORS_ORIGINS` lists: that variable is there, it is not empty, and the wildcard is not
-- given to the server.
pub cors_origin_strict :
    (zod : Zod) (split : String → String → List String) (trim : String → String) (env : Dict String)
    (config : Dict (Value zod.Number))
    → zod.parse (schema_of zod App.gateway) env ≡ ok config
    → lookup "CORS_STRICT" env ≡ some "true"
    → (origins : String) × (lookup "CORS_ORIGINS" env ≡ some origins)
      × (lookup "CORS_ORIGINS" config ≡ some (text origins))
      × (cors_origin split trim origins ≡ listed (map trim (split "," origins)))
      × (origins ≢ "")
cors_origin_strict zod split trim env config parsed strict =
    let (origins, given, held, apart, filled) = gateway_cors zod env config parsed strict in
    (origins, given, held, cors_origin-listed split trim origins apart, filled)
