-- ===== src/Http/Provider.antt =====
-- packages/foundation/src/external/http/provider/http-client.provider.ts: what a client is built of,
-- besides the collaborators that it constructs anew. The app's environment is a dictionary.
pub mod Laws
use email_platform_services.Common.{
  ℕ, String, str_eq, Bool, true, false, not, ◌&&◌, ◌||◌, Option, none, some, get_or, List, [], ◌∷◌,
  Dict, lookup, Outcome, ok, throws, plain_error, if◌then◌else◌,
}
use email_platform_services.Config.Shapes.{Value, text}
use email_platform_services.Http.Types.{CbOptions, cb_consecutive_threshold, cb_half_open_after_ms}
use email_platform_services.Http.Errors.{ErrorMapper, default_mappers}

-- `Partial<CbOptions>`.
pub record PartialCbOptions : Type 0 where
  pub consecutive_threshold : Option ℕ
  pub half_open_after_ms : Option ℕ

pub record HttpClientProviderOpts : Type 0 where
  pub token : String
  pub log_context : String
  pub env_token : String
  pub base_url_env_key : Option String
  pub base_url_literal : Option String
  pub timeout_ms : Option ℕ
  pub cb : Option PartialCbOptions

-- What the provider's factory puts together, with `env`; `base_url` is `undefined` where the
-- variable is.
pub record HttpClientDeps (N : Type 0) : Type 0 where
  pub mappers : List ErrorMapper
  pub cb : CbOptions
  pub api : String
  pub base_url : Option (Value N)
  pub default_timeout_ms : ℕ
  pub log_context : String
  pub env : Dict (Value N)

pub record ClientProvider (N : Type 0) : Type 0 where
  pub provide : String
  pub inject : List String
  pub use_factory : Dict (Value N) → HttpClientDeps N

abbrev pub default_timeout : ℕ
default_timeout = 5000

-- The truth value of an optional string.
unfoldable pub truthy : Option String → Bool
truthy none = false
truthy (some s) = not (str_eq s "")

unfoldable pub cb_options : Option PartialCbOptions → CbOptions
cb_options none = record {
  consecutive_threshold = cb_consecutive_threshold;
  half_open_after_ms = cb_half_open_after_ms;
}
cb_options (some cb) = record {
  consecutive_threshold = get_or cb.consecutive_threshold cb_consecutive_threshold;
  half_open_after_ms = get_or cb.half_open_after_ms cb_half_open_after_ms;
}

module _ {N : Type 0} (opts : HttpClientProviderOpts) where
  unfoldable pub base_url_of : Dict (Value N) → Option (Value N)
  unfolding truthy
  base_url_of env =
      let from_env : Option (Value N) = elim opts.base_url_env_key [
        | none ↦ none
        | some key ↦ lookup key env
      ] in
      let literal : Option (Value N) = elim opts.base_url_literal [
        | none ↦ none
        | some url ↦ some (text url)
      ] in
      if truthy opts.base_url_literal then literal else from_env

  unfoldable pub build_deps : Dict (Value N) → HttpClientDeps N
  unfolding cb_options base_url_of default_mappers
  build_deps env = record {
    mappers = default_mappers;
    cb = cb_options opts.cb;
    api = opts.log_context;
    base_url = base_url_of env;
    default_timeout_ms = get_or opts.timeout_ms default_timeout;
    log_context = opts.log_context;
    env = env;
  }

  unfoldable pub http_client_provider : Outcome (ClientProvider N)
  unfolding truthy build_deps
  http_client_provider =
      let missing = not (truthy opts.base_url_env_key) && not (truthy opts.base_url_literal) in
      let doubled = truthy opts.base_url_env_key && truthy opts.base_url_literal in
      if missing || doubled
      then throws
          (plain_error "httpClientProvider: provide exactly one of baseUrlEnvKey or baseUrlLiteral")
      else ok (record {
        provide = opts.token;
        inject = opts.env_token ∷ "ClsService" ∷ [];
        use_factory = build_deps;
      })
