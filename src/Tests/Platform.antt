-- ===== src/Tests/Platform.antt =====
-- A breaker, a host and the settings that the examples share.
use email_platform_services.Http.Retry.{Doubles}
use email_platform_services.Common.{
  ℕ, ◌+◌, ◌≡◌, refl, Bool, true, false, String, Option, none, some, [], ◌∷◌, Outcome, Thrown,
  native_error, plain_error,
}
use email_platform_services.Http.Types.{
  HttpCallOpts, RetryPolicy, CbOptions, CbState, closed, half_open, opened,
}
use email_platform_services.Http.Errors.{default_mappers}
use email_platform_services.Http.Breaker.{Opossum, Shared}
use email_platform_services.Http.Executor.{Response, RequestInit, Host, Endpoint}

abbrev pub is_opened : CbState → Bool
is_opened opened = true
is_opened _ = false

abbrev pub is_half_open : CbState → Bool
is_half_open half_open = true
is_half_open _ = false

abbrev pub start : CbState → Option CbState
start opened = none
start closed = some closed
start half_open = some half_open

abbrev pub settle : CbState → CbState
settle half_open = closed
settle closed = closed
settle opened = opened

abbrev pub elapse : CbState → CbState
elapse opened = half_open
elapse b = b

pub exclusive : (b : CbState) → is_opened b ≡ true → is_half_open b ≡ false
exclusive opened h = refl
exclusive closed h = cc
exclusive half_open h = cc

pub start_opened : (b : CbState) → is_opened b ≡ true → start b ≡ none
start_opened opened h = refl
start_opened closed h = cc
start_opened half_open h = cc

pub start_closed : (b : CbState) → is_opened b ≡ false → is_half_open b ≡ false → start b ≡ some b
start_closed closed h k = refl
start_closed opened h k = cc
start_closed half_open h k = cc

pub start_half_open :
    (b b' : CbState) → is_half_open b ≡ true → start b ≡ some b' → is_half_open b' ≡ true
start_half_open half_open half_open h k = refl
start_half_open half_open closed h k = cc
start_half_open half_open opened h k = cc
start_half_open closed b' h k = cc
start_half_open opened b' h k = cc

pub settle_opened : (b : CbState) → is_opened b ≡ true → settle b ≡ b
settle_opened opened h = refl
settle_opened closed h = refl
settle_opened half_open h = cc

pub settle_closed : (b : CbState) → is_half_open b ≡ false → settle b ≡ b
settle_closed closed h = refl
settle_closed opened h = refl
settle_closed half_open h = cc

pub settle_half_open :
    (b : CbState)
    → is_half_open b ≡ true
    → (is_opened (settle b) ≡ false) × (is_half_open (settle b) ≡ false)
settle_half_open half_open h = (refl, refl)
settle_half_open closed h = (refl, refl)
settle_half_open opened h = cc

pub elapse_opened : (b : CbState) → is_opened b ≡ true → is_half_open (elapse b) ≡ true
elapse_opened opened h = refl
elapse_opened closed h = cc
elapse_opened half_open h = cc

abbrev pub opossum : Opossum
opossum = record {
  Breaker = CbState;
  is_opened = is_opened;
  is_half_open = is_half_open;
  start = start;
  settle = settle;
  trip = λ b. opened;
  elapse = elapse;
  rejection = plain_error "Breaker is open";
  exclusive = exclusive;
  start_opened = start_opened;
  start_closed = start_closed;
  start_half_open = start_half_open;
  settle_opened = settle_opened;
  settle_closed = settle_closed;
  settle_half_open = settle_half_open;
  trip_opened = λ b. refl;
  elapse_opened = elapse_opened;
}

-- Numbers are not printed apart here.
abbrev pub show : ℕ → String
show n = "0"

abbrev pub two_failures : CbOptions
two_failures = record { consecutive_threshold = 2; half_open_after_ms = 30000 }

-- The world counts the fetches.
abbrev pub World : Type 0
World = Shared CbState ℕ

abbrev pub start_in : CbState → World
start_in b = record { adapter = record { breaker = b; consecutive_failures = 0 }; world = 0 }

abbrev pub counted : World → World
counted s = record s { world = s.world + 1 }

abbrev pub refused : Thrown
refused = native_error (record {
  name = "TypeError";
  message = "fetch failed";
  is_type_error = true;
  cause = some "ECONNREFUSED";
})

abbrev pub answering : Outcome Response → Host World
answering answer = record {
  now = λ s. s.world;
  fetch = λ url init s. (answer, counted s);
  emit = λ line s. s;
  correlation_id = λ s. some "c";
}

abbrev pub unavailable : Response
unavailable = record { status = 503; is_ok = false; body = "" }

abbrev pub fine : Response
fine = record { status = 200; is_ok = true; body = "{}" }

abbrev pub endpoint : Endpoint
endpoint = record {
  mappers = default_mappers;
  base_url = "http://a";
  auth_headers = ("Authorization", "key") ∷ [];
  default_timeout_ms = 10000;
  log_context = "telegram";
}

abbrev pub no_opts : HttpCallOpts
no_opts = record { timeout_ms = none; idempotent = none; retries = none; headers = none }

abbrev pub no_retries : HttpCallOpts
no_retries = record { timeout_ms = none; idempotent = none; retries = some 0; headers = none }

abbrev pub empty_init : RequestInit
empty_init = record { method = none; signal = none; headers = none; body = none }

abbrev pub policy : RetryPolicy
policy = record { max_attempts = 3; backoff_min_ms = 200; backoff_max_ms = 5000; jitter_ratio = 50 }

-- Doubles without rounding, with draws in tenths.
abbrev pub doubles : Doubles
doubles = record {
  unit = 10;
  round = λ n. n;
  round_monotone = λ m n le. le;
  round_halves = λ halves small. refl;
}
