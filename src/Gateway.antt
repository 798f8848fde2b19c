-- ===== src/Gateway.antt =====
-- apps/gateway/src/main.ts and infrastructure/bootstrap/throttle/throttle.module.ts: what the
-- gateway makes of its configuration. `split` and `trim` are the methods of strings.
pub mod Laws
use email_platform_services.Common.{
  ℕ, String, str_eq, Option, none, some, List, [], ◌∷◌, map, Dict, lookup, if◌then◌else◌,
}
use email_platform_services.Config.Shapes.{Value}

-- The `origin` of `enableCors`.
pub data Origin : Type 0 where
  wildcard : Origin
  listed : List String → Origin

unfoldable pub cors_origin : (String → String → List String) → (String → String) → String → Origin
cors_origin split trim cors_origins =
    let origins = listed (map trim (split "," cors_origins)) in
    if str_eq cors_origins "*" then wildcard else origins

pub record Throttler (N : Type 0) : Type 0 where
  pub name : String
  pub ttl : Option (Value N)
  pub limit : Option (Value N)

unfoldable pub throttlers : {N : Type 0} → Dict (Value N) → List (Throttler N)
throttlers config =
    record {
      name = "burst";
      ttl = lookup "RATE_LIMIT_BURST_TTL" config;
      limit = lookup "RATE_LIMIT_BURST_LIMIT" config;
    }
    ∷ record {
      name = "sustained";
      ttl = lookup "RATE_LIMIT_SUSTAINED_TTL" config;
      limit = lookup "RATE_LIMIT_SUSTAINED_LIMIT" config;
    }
    ∷ []
