-- ===== src/Logging/Interceptors.antt =====
-- http-timing.interceptor.ts and grpc-logging.interceptor.ts: one log line for a call, by how it
-- ended; and correlation.interceptor.ts. A handler gives one value or throws. `error.message` is the
-- parameter `message`.
use email_platform_services.Common.{ℕ, String, Option, ℤ, sub_ℕ, Outcome, ok, throws, Thrown}

pub data Line : Type 0 where
  http_completed : (method path : String) (status_code : ℕ) (duration_ms : ℤ) → Line
  http_failed : (method path : String) (duration_ms : ℤ) (error : Option String) → Line
  grpc_completed : (method : String) (duration : ℤ) → Line
  grpc_failed : (method : String) (duration : ℤ) (error : Option String) → Line

-- The clock, the log, and the status of the response, in a state.
pub record LogHost (S : Type 0) : Type 0 where
  pub now : S → ℕ
  pub emit : Line → S → S
  pub status_code : S → ℕ

module _ {S V : Type 0} (host : LogHost S) (message : Thrown → Option String)
    (handle : S → Outcome V × S) where
  unfoldable pub http_timing : String → String → S → Outcome V × S
  http_timing method path s =
      let start = host.now s in
      let (settled, t) = handle s in
      let duration = sub_ℕ (host.now t) start in
      elim settled [
        | ok value ↦
            (ok value, host.emit (http_completed method path (host.status_code t) duration) t)
        | throws err ↦ (throws err, host.emit (http_failed method path duration (message err)) t)
      ]

  unfoldable pub grpc_logging : String → S → Outcome V × S
  grpc_logging method s =
      let start = host.now s in
      let (settled, t) = handle s in
      let duration = sub_ℕ (host.now t) start in
      elim settled [
        | ok value ↦ (ok value, host.emit (grpc_completed method duration) t)
        | throws err ↦ (throws err, host.emit (grpc_failed method duration (message err)) t)
      ]

-- correlation.interceptor.ts: the handler runs with a logger that has the id of the context, and
-- what it gives is passed on. `root` and `storage_run` are pino's root logger's `child` and
-- `storage.run` of nestjs-pino.
module _ {S V Logger : Type 0} (get_id : S → Option String) (root : Option String → S → Logger)
    (storage_run : Logger → (S → Outcome V × S) → S → Outcome V × S) where
  unfoldable pub grpc_correlation : (S → Outcome V × S) → S → Outcome V × S
  grpc_correlation handle s =
      let child_logger = root (get_id s) s in storage_run child_logger handle s
