-- ===== src/Tests/Startup.antt =====
-- Examples for connecting at start-up.
use email_platform_services.Common.{ℕ, zero, suc, arith, Outcome, ok, throws, plain_error, String}
use email_platform_services.Resilience.{RetryOptions, retry_connect}
use email_platform_services.Resilience.Laws.{Ends, retry_connect-Ends}
use email_platform_services.Tests.Platform.{show}

-- The broker listens from the second attempt on.
abbrev connect : ℕ → Outcome String × ℕ
connect zero = (throws (plain_error "refused"), 1)
connect (suc n) = (ok "channel", suc n)

abbrev quick : RetryOptions
quick = record { max_retries = 3; base_delay_ms = 200; max_delay_ms = 5000 }

retry_connect-Ends_example :
    Ends show "RabbitMQ" connect quick
      (λ i. 100)
      1
      0
      (retry_connect show "RabbitMQ" connect quick (λ i. 100) 0)
retry_connect-Ends_example =
    retry_connect-Ends show "RabbitMQ" connect quick (λ i. 100) 0 (omega arith)
