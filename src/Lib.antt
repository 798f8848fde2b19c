-- ===== src/Lib.antt =====
-- The shared foundation of the email platform's services and what is built on it, as definitions
-- that run and theorems about them. Paths below are from the repository's root; `external` stands
-- for packages/foundation/src/external.
--
-- The parts and where they are modelled:
-- - Http, of external/http: the client for third-party APIs. `AbstractHttpClient.request` is
--   `Http.Client.request`: a circuit breaker (Http/Breaker, opossum-circuit-breaker.adapter.ts)
--   around a retry loop (Http/Retry, retry/) around one attempt (Http/Executor,
--   request-executor.ts), whose errors the mappers of Http/Errors (errors/) make uniform.
-- - Rpc, of external/errors: the gRPC exceptions, the filter with which a service answers a failed
--   call (`catch_rpc`, rpc-exception.filter.ts), and the gateway's filter that turns it into an
--   HTTP reply (`catch_http`, grpc-to-http.filter.ts).
-- - Resilience, of external/resilience/retry-connect.ts: connecting to a dependency at start-up.
-- - Cache, of external/cache/cache.service.ts: the namespaced cache over Redis.
-- - Storage, of external/storage/public and packages/foundation/src/internal/storage: names, URLs
--   and the size limit of uploads, and the storage services over an S3 client.
-- - Sender, Audience, Auth and Parser, of the src folders of those apps: the gRPC controller
--   (Controller), and the services and the use cases (Application), which the source has not
--   implemented: each throws. The services and controllers are written over any use cases and
--   ports. Messages has the commands and messages of Auth and Parser.
-- - Notifier, of apps/notifier/src: the handler and the consumer of events, which throw, and the
--   adapter that sends a notification over the Telegram client.
-- - Paging: the pages of lists that the controllers use.
-- - Vendors, of the http-clients folders of apps/notifier, apps/sender and apps/parser: the
--   clients for Telegram, Cloud Functions and AppStoreSpy, on top of Http. Vendors/Modules are the
--   modules that provide them with `httpClientProvider` (Http/Provider, provider/).
-- - Config, of packages/config/src and external/config: the schemas of the environment as data
--   (Shapes, Schemas), the identities of the services (Services), `loadConfig` and
--   `createConfigModule` (Load), and the configuration modules of the apps (Apps).
-- - Grpc, of external/grpc and external/resilience/grpc-deadline.interceptor.ts: the search for
--   the proto files (Protos), the calls of a promisified client with their deadlines (Calls), and
--   the client modules (Clients), whose URLs come from a configuration of Config.
-- - Contracts, of packages/contracts/src/generated (parser.ts and notifier.ts; the rest is not
--   committed): the reader and writer of protobuf (Wire), what every codec is made of (Codec), the
--   messages of the parser (Messages) and the methods of the services (Service).
-- - Health, of the health indicators of external and the health controllers of the apps: Indicators,
--   Controllers and their composition (Build). A readiness probe calls Postgres, Redis, S3,
--   RabbitMQ or the health checks of the upstream services.
-- - Logging, of external/logging: correlation ids (Ids), the settings of the logging modules
--   (Module), and the interceptors (Interceptors).
-- - Gateway, of apps/gateway/src: the CORS origin of main.ts and the options of the throttler.
-- - Persistence, of the persistence folders of apps/sender, apps/audience, apps/parser and
--   apps/auth: the repositories and mappers over a Postgres table.
-- - Wiring, of the `@Module` declarations in apps/*/src and packages/foundation/src: the modules of
--   foundation (Foundation), the inbound modules (Inbound), the outbound ones (Outbound) and the rest of
--   each app up to its root module (Apps), with the tokens that are injected into each provider and controller; what the
--   container of NestJS documents (Container), and a search for tokens (Search). Settings is about
--   the module that `createConfigModule` (Config) returns.
-- - Common: what they share. Tests: the theorems applied to concrete values.
--
-- How code becomes definitions. A method on mutable state takes the state and gives the settled
-- promise with the state it leaves: `Outcome` is a value or what was thrown, and `Thrown` has a
-- constructor for each kind of value that the code tells apart. An action that a component is
-- given (the attempt of the retry loop, the call that the breaker guards) is any function from
-- states to an outcome and a state, so that it may do whatever other calls do while it waits:
-- other calls may be interleaved at each `await`. Numbers are natural numbers; a duration that a
-- clock can make negative is an integer. The wait before a retry is in parts of a millisecond, and
-- `Doubles` rounds it. Texts are strings, and lists of UTF-16 code units where single
-- characters matter (Storage).
--
-- What is not this repository's code is a parameter with the documented behaviour that the code
-- relies on: opossum (`Opossum`, and `Emitter` for its events), fetch, the clock and the log (`Host`), Redis (`Redis`), JSON
-- (`Json`, or functions that parse and print), the S3 client (`S3`), a Postgres table under Drizzle
-- (`Table`), zod (`Zod`), the reader and writer of
-- @bufbuild/protobuf (`Writing`, `Reading`) and the generated messages of common.proto
-- (`CommonMessages`), terminus (`Terminus`), the container of NestJS (`Container`, with
-- `Sealed` for what a module keeps to itself), node:path and node:fs (`Files`), the upper case
-- of the services' identities (`UpperCase`), the gRPC transport between a service and the gateway
-- (an argument of the theorem that needs it), `Math.random` and `randomUUID` (arguments), the
-- rounding of doubles (`Doubles`), the metadata of grpc-js (`GrpcMetadata`). A call of theirs that fails promises nothing.
--
-- Loops run on fuel that is the bound of the code's own `for` loop: `maxAttempts` rounds for the
-- retry loop and `maxRetries` for connecting. That is enough, since each round of the code is one
-- of the model; the code after the loop is the case in which no round is left. The search for the
-- root of the repository has one round more than the directory is deep, after which it stands at
-- the root of the file system. The loop of a generated `decode` has one round more than there are
-- bytes, since each round reads a tag. `Promise.allSettled` runs its calls in the order of the list.
--
-- Not modelled: the order in which the container constructs providers, the rest of each main.ts,
-- which calls NestJS to start a process, and the generated protobuf code that is not committed.
pub mod Common
pub mod Http
pub mod Rpc
pub mod Resilience
pub mod Cache
pub mod Storage
pub mod Paging
pub mod Config
pub mod Contracts
pub mod Grpc
pub mod Health
pub mod Logging
pub mod Gateway
pub mod Notifier
pub mod Sender
pub mod Audience
pub mod Auth
pub mod Parser
pub mod Vendors
pub mod Persistence
pub mod Wiring
pub mod Tests
