-- ===== src/Http/Provider/Laws.antt =====
-- When `httpClientProvider` refuses its options.
use email_platform_services.Common.{
  ◌≡◌, refl, ◌⊎◌, inl, inr, ◌↔◌, Bool, true, false, ok, throws, not, ◌&&◌, ◌||◌, if◌then◌else◌,
  Thrown,
}
use email_platform_services.Http.Provider.{
  HttpClientProviderOpts, ClientProvider, http_client_provider, truthy,
}

-- One of two conditions holds, and the other does not.
abbrev pub ExactlyOne : Bool → Bool → Type 0
ExactlyOne a b = ((a ≡ true) × (b ≡ false)) ⊎ ((a ≡ false) × (b ≡ true))

guard-ExactlyOne :
    {A : Type 0} (a b : Bool) (err : Thrown) (x y : A)
    → (if (not a && not b) || (a && b) then throws err else ok x) ≡ ok y
    → ExactlyOne a b
guard-ExactlyOne true true err x y e = cc
guard-ExactlyOne true false err x y e = inl (refl, refl)
guard-ExactlyOne false true err x y e = inr (refl, refl)
guard-ExactlyOne false false err x y e = cc

guard_ok :
    {A : Type 0} (a b : Bool) (err : Thrown) (x : A)
    → ExactlyOne a b
    → (if (not a && not b) || (a && b) then throws err else ok x) ≡ ok x
guard_ok a b err x (inl (p, q)) = rw (p, q) refl
guard_ok a b err x (inr (p, q)) = rw (p, q) refl

-- A provider is given exactly when one of the two sources of the address is a non-empty text and
-- the other is not.
pub http_client_provider_iff :
    (N : Type 0) (opts : HttpClientProviderOpts)
    → ((provider : ClientProvider N) × (http_client_provider opts ≡ ok provider))
      ↔ ExactlyOne (truthy opts.base_url_env_key) (truthy opts.base_url_literal)
unfolding http_client_provider
http_client_provider_iff N opts =
    (λ given. guard-ExactlyOne _ _ _ _ given.0 given.1, λ one. (_, guard_ok _ _ _ _ one))
