-- ===== src/Health/Gateway.antt =====
-- What the readiness of the gateway says of the services behind it and of its cache.
use email_platform_services.Common.{
  ◌≡◌, ◌↔◌, refl, sym, ap, ◌∙◌, subst, String, false, some, get_or, List, [], ◌∷◌, map, All, spread,
  Outcome, ok, answer-eq-ok, answer-ok, await-ok, await-eq-ok,
}
use email_platform_services.Health.Indicators.{
  IndicatorResult, up_result, redis_is_healthy, grpc_client_is_healthy, serving,
}
use email_platform_services.Health.Controllers.{
  HealthCheckResult, IsUp, keyed, results_of, Terminus, all_settled, replay, Upstreams,
  upstream_indicator, merge_results, gateway_readiness,
}
use email_platform_services.Health.Laws.{AnswersIn, serving-up, up_or_down-up, up_or_down-ok}

module _ {S : Type 0} where
  -- Each service replies that it serves, asked one after another from a state on.
  abbrev pub AllServe : Upstreams S → S → Type 0
  AllServe [] s = Unit
  AllServe ((key, check) ∷ upstreams) s = ((check s).0 ≡ ok 1) × AllServe upstreams (check s).1

  -- The state that the replies leave.
  abbrev pub asked_all : Upstreams S → S → S
  asked_all [] s = s
  asked_all ((key, check) ∷ upstreams) s = asked_all upstreams (check s).1

  abbrev settled_upstreams : Upstreams S → S → List (Outcome IndicatorResult) × S
  settled_upstreams upstreams s = all_settled (map upstream_indicator upstreams) s

  settled-state :
      (upstreams : Upstreams S) (s : S) → (settled_upstreams upstreams s).1 ≡ asked_all upstreams s
  unfolding all_settled upstream_indicator grpc_client_is_healthy
  settled-state [] s = refl
  settled-state ((key, check) ∷ upstreams) s = settled-state upstreams (check s).1

  settled-AllServe :
      (upstreams : Upstreams S) (s : S)
      → All IsUp (settled_upstreams upstreams s).0
      → AllServe upstreams s
  unfolding all_settled upstream_indicator grpc_client_is_healthy
  settled-AllServe [] s all = tt
  settled-AllServe ((key, check) ∷ upstreams) s (is_up, rest) =
      ((serving-up key (check s).0 is_up).0, settled-AllServe upstreams (check s).1 rest)

  AllServe-settled :
      (upstreams : Upstreams S) (s : S)
      → AllServe upstreams s
      → All IsUp (settled_upstreams upstreams s).0
  unfolding all_settled upstream_indicator grpc_client_is_healthy serving
  AllServe-settled [] s all = tt
  AllServe-settled ((key, check) ∷ upstreams) s (serves, rest) =
      ((up_result key, ap (serving key) serves, refl), AllServe-settled upstreams (check s).1 rest)

  -- Each service that is up, under its key.
  abbrev pub all_up : Upstreams S → List (String × IndicatorResult)
  all_up upstreams = map (λ u. (u.0, up_result u.0)) upstreams

  settled-all_up :
      (upstreams : Upstreams S) (s : S)
      → AllServe upstreams s
      → map keyed (results_of (settled_upstreams upstreams s).0) ≡ all_up upstreams
  unfolding all_settled upstream_indicator grpc_client_is_healthy serving
  settled-all_up [] s all = refl
  settled-all_up ((key, check) ∷ upstreams) s (serves, rest) =
      rw (serves) (ap (λ rs. (key, up_result key) ∷ rs) (settled-all_up upstreams (check s).1 rest))

  replayed : (os : List (Outcome IndicatorResult)) (s : S) → all_settled (map replay os) s ≡ (os, s)
  unfolding all_settled
  replayed [] s = refl
  replayed (o ∷ os) s = ap (λ p. (o ∷ p.0, p.1)) (replayed os s)

  module _ {B : Type 0} (health : Terminus S) (ping : S → Outcome B × S) where
    abbrev IsAlive : S → Type 0
    IsAlive s = health.is_shutting_down s ≡ false

    -- The first check of the gateway replays what its calls of the services have settled with.
    abbrev first_check : Upstreams S → S → Outcome HealthCheckResult × S
    first_check upstreams s =
        let (results, t) = settled_upstreams upstreams s in health.check (map replay results) t

    first_ok :
        (upstreams : Upstreams S) (s : S) (first : HealthCheckResult)
        → (first_check upstreams s).0 ≡ ok first
        → AllServe upstreams s
          × IsAlive (asked_all upstreams s)
          × (first.details ≡ some (spread [] (all_up upstreams)))
          × ((first_check upstreams s).1 ≡ asked_all upstreams s)
    first_ok upstreams s first checked =
        let (os, t) = settled_upstreams upstreams s in
        let (ups, alive, details, left) = health.check_ok (map replay os) t first checked in
        let there = replayed os t in
        let here = ap (λ p. p.1) there ∙ settled-state upstreams s in
        let serve = settled-AllServe upstreams s (subst (λ p. All IsUp p.0) there ups) in
        (
          serve,
          subst IsAlive here alive,
          details
              ∙ ap (λ p. some (spread [] (map keyed (results_of p.0)))) there
              ∙ ap (λ rs. some (spread [] rs)) (settled-all_up upstreams s serve),
          left ∙ here,
        )

    first_given :
        (upstreams : Upstreams S) (s : S)
        → AllServe upstreams s
        → IsAlive (asked_all upstreams s)
        → (first : HealthCheckResult) × ((first_check upstreams s).0 ≡ ok first)
    first_given upstreams s serve alive =
        let (os, t) = settled_upstreams upstreams s in
        let there = replayed os t in
        let here = ap (λ p. p.1) there ∙ settled-state upstreams s in
        health.check_up (map replay os) t
          (subst (λ p. All IsUp p.0) (sym there) (AllServe-settled upstreams s serve))
          (subst IsAlive (sym here) alive)

    cache_ok :
        (s : S) (given : HealthCheckResult)
        → (health.check (redis_is_healthy ping "cache" ∷ []) s).0 ≡ ok given
        → AnswersIn ping s
          × IsAlive (ping s).1
          × (given.details ≡ some (spread [] (("cache", up_result "cache") ∷ [])))
    unfolding all_settled redis_is_healthy
    cache_ok s given e =
        let ((is_up, end), alive, details, left) = health.check_ok _ s given e in
        let (answered, same) = up_or_down-up "cache" _ (ping s).0 is_up in
        (
          answered,
          alive,
          details ∙ ap (λ o. some (spread [] (map keyed (results_of (o ∷ []))))) same,
        )

    cache_given :
        (s : S)
        → AnswersIn ping s
        → IsAlive (ping s).1
        → (given : HealthCheckResult) × ((health.check (redis_is_healthy ping "cache" ∷ []) s).0
            ≡ ok given)
    unfolding all_settled redis_is_healthy
    cache_given s answers alive =
        health.check_up _ s (up_or_down-ok "cache" _ (ping s).0 answers, tt) alive

    abbrev CanReply : Upstreams S → S → Type 0
    CanReply upstreams s =
        let t = asked_all upstreams s in
        AllServe upstreams s × IsAlive t × AnswersIn ping t × IsAlive (ping t).1

    both_ok :
        (upstreams : Upstreams S) (s : S) (given : HealthCheckResult)
        → (gateway_readiness health upstreams ping s).0 ≡ ok given
        → CanReply upstreams s
          × (given.details
              ≡ some (spread (spread [] (all_up upstreams)) (("cache", up_result "cache") ∷ [])))
    unfolding gateway_readiness merge_results
    both_ok upstreams s given e =
        let (first, checked, next) = await-eq-ok (first_check upstreams s) _ given e in
        let (second, cached, merged) = answer-eq-ok (merge_results first) _ given next in
        let (serve, alive, details, left) = first_ok upstreams s first checked in
        let (answered, still, entry) = cache_ok _ second cached in
        (
          (
            serve,
            alive,
            subst (AnswersIn ping) left answered,
            subst (λ u. IsAlive (ping u).1) left still,
          ),
          ap (λ g. g.details) merged
              ∙ ap (λ d. some (spread (get_or d []) (get_or second.details []))) details
              ∙ ap (λ d. some (spread (spread [] (all_up upstreams)) (get_or d []))) entry,
        )

    both_given :
        (upstreams : Upstreams S) (s : S)
        → CanReply upstreams s
        → (given : HealthCheckResult) × ((gateway_readiness health upstreams ping s).0 ≡ ok given)
    unfolding gateway_readiness
    both_given upstreams s (serve, alive, answers, still) =
        let (first, checked) = first_given upstreams s serve alive in
        let (ups, before, details, left) = first_ok upstreams s first checked in
        let back = sym left in
        let (second, cached) =
          cache_given (first_check upstreams s).1 (subst (AnswersIn ping) back answers)
            (subst (λ u. IsAlive (ping u).1) back still) in
        (
          merge_results first second,
          ap (λ p. p.0)
              (await-ok _ _ first checked ∙ answer-ok (merge_results first) _ second cached),
        )

  -- The gateway is ready just when each of the services behind it replies that it serves, asked one
  -- after another by the probe, then the cache answers, and the application is not shutting down
  -- after either.
  pub gateway_ready_iff :
      {B : Type 0} (health : Terminus S) (upstreams : Upstreams S) (ping : S → Outcome B × S)
      (s : S)
      → ((given : HealthCheckResult) × ((gateway_readiness health upstreams ping s).0 ≡ ok given))
        ↔ (AllServe upstreams s
            × (health.is_shutting_down (asked_all upstreams s) ≡ false)
            × AnswersIn ping (asked_all upstreams s)
            × (health.is_shutting_down (ping (asked_all upstreams s)).1 ≡ false))
  gateway_ready_iff health upstreams ping s = (
    λ (given, e). (both_ok health ping upstreams s given e).0,
    λ can. both_given health ping upstreams s can,
  )

  -- The details of the gateway's reply are those of all the services behind it, each up under its
  -- key, with the cache's merged into them.
  pub gateway_readiness-details :
      {B : Type 0} (health : Terminus S) (upstreams : Upstreams S) (ping : S → Outcome B × S)
      (s : S) (given : HealthCheckResult)
      → (gateway_readiness health upstreams ping s).0 ≡ ok given
      → given.details
        ≡ some (spread (spread [] (all_up upstreams)) (("cache", up_result "cache") ∷ []))
  gateway_readiness-details health upstreams ping s given e =
      (both_ok health ping upstreams s given e).1
