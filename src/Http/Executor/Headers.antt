-- ===== src/Http/Executor/Headers.antt =====
-- The order in which the three sources of request headers win.
use email_platform_services.Common.{
  String, Option, none, some, get_or, [], ◌≡◌, arith, Dict, lookup, last_value, spread,
  lookup-spread_last,
}
use email_platform_services.Http.Types.{HttpCallOpts}
use email_platform_services.Http.Executor.{RequestInit, merge_headers}

-- The first of two that is given.
abbrev pub or_else : {A : Type 0} → Option A → Option A → Option A
or_else none b = b
or_else (some a) b = some a

-- A header is that of the call's options, else that of the request, else that of the client's
-- authentication.
pub lookup-merge_headers :
    (k : String) (auth : Dict String) (init : RequestInit) (opts : HttpCallOpts)
    → lookup k (merge_headers auth init opts)
      ≡ or_else
          (last_value k (get_or opts.headers []))
          (or_else (last_value k (get_or init.headers [])) (lookup k auth))
unfolding merge_headers
lookup-merge_headers k auth init opts =
    let given = get_or init.headers [] in
    ground (
      arith,
      lookup-spread_last k (spread auth given) (get_or opts.headers []),
      lookup-spread_last k auth given,
    )
