-- ===== src/Health/Build.antt =====
-- packages/foundation/src/external/build-info.ts. The file's reading and parsing, `read`, may throw;
-- `truthy` is the truth value of what was parsed.
use email_platform_services.Common.{Bool, true, false, Option, none, some, Outcome, ok, throws}

-- The module's `cached`; `none` is `null`.
module _ {V : Type 0} (truthy : V → Bool) (local_build_info : V) (read : Outcome V) where
  unfoldable pub reread : Outcome V → V
  reread (ok parsed) = parsed
  reread (throws err) = local_build_info

  unfoldable pub get_build_info : Option V → V × Option V
  unfolding reread
  get_build_info none = (reread read, some (reread read))
  get_build_info (some cached) = elim (truthy cached) [
    | true ↦ (cached, some cached)
    | false ↦ (reread read, some (reread read))
  ]
