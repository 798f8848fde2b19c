-- ===== src/Cache.antt =====
-- packages/foundation/src/external/cache: the namespaced cache over Redis, which deletes entries
-- that it cannot read. The Redis client, `JSON` and the schema library are parameters.
pub mod Namespace
pub mod Laws
use Prim.Native.String.{◌++◌ as append}
use email_platform_services.Common.{
  ℕ, ◌≡◌, String, Option, none, some, List, [], ◌∷◌, str_eq, if◌then◌else◌, Outcome, ok, throws,
  Thrown,
}

-- A Redis client: `content` is what the server holds now (an expired key is gone), and each call
-- settles and leaves a state. A call that fails says nothing of the server.
pub record Redis : Type 1 where
  pub Server : Type 0
  pub content : Server → String → Option String
  pub read : String → Server → Outcome (Option String) × Server
  pub write : String → String → ℕ → Server → Outcome (Unit {0}) × Server
  pub remove : String → Server → Outcome (Unit {0}) × Server
  pub read_ok :
      (k : String) (r : Server) (v : Option String)
      → (read k r).0 ≡ ok v
      → (v ≡ content r k) × ((j : String) → content (read k r).1 j ≡ content r j)
  pub write_ok :
      (k v : String) (ttl : ℕ) (r : Server)
      → (write k v ttl r).0 ≡ ok tt
      → (j : String) → content (write k v ttl r).1 j ≡ (if str_eq k j then some v else content r j)
  pub remove_ok :
      (k : String) (r : Server)
      → (remove k r).0 ≡ ok tt
      → (j : String) → content (remove k r).1 j ≡ (if str_eq k j then none else content r j)

-- `JSON` on the values `J`.
pub record Json (J : Type 0) : Type 0 where
  pub parse : String → Outcome J
  pub stringify : J → String

pub data CorruptReason : Type 0 where
  json_parse schema_mismatch : CorruptReason

pub data CacheGetResult (J : Type 0) : Type 0 where
  absent : CacheGetResult J
  corrupt : CorruptReason → CacheGetResult J
  value : J → CacheGetResult J

pub data CacheLog : Type 0 where
  parse_failed : (key : String) (err : Thrown) → CacheLog
  mismatch : (key : String) → CacheLog
  heal_failed : (key : String) (err : Thrown) → CacheLog

pub record Served (Server : Type 0) : Type 0 where
  pub server : Server
  pub log : List CacheLog

-- The prefix of `prefixKey`.
unfoldable pub prefix_key : String → String → String
prefix_key namespace key = append (append namespace ":") key

module _ (redis : Redis) {J : Type 0} (json : Json J) (namespace : String) where
  unfoldable pub del : String → redis.Server → Outcome (Unit {0}) × redis.Server
  del key = redis.remove (prefix_key namespace key)

  unfoldable pub set : String → J → ℕ → redis.Server → Outcome (Unit {0}) × redis.Server
  set key v ttl_ms = redis.write (prefix_key namespace key) (json.stringify v) ttl_ms

  -- The inner `try`: a failure to delete is only logged. The newest line is at the head.
  unfoldable pub self_heal : String → Served redis.Server → Served redis.Server
  unfolding del
  self_heal key s =
      let (settled, server) = del key s.server in
      elim settled [
        | ok done ↦ record { server = server; log = s.log }
        | throws err ↦ record {
          server = server;
          log = heal_failed (prefix_key namespace key) err ∷ s.log;
        }
      ]

  -- `schema.safeParse` gives the parsed data, or `none`.
  unfoldable pub check_schema :
      Option (J → Option J)
      → String
      → J
      → Served redis.Server
      → Outcome (CacheGetResult J) × Served redis.Server
  unfolding self_heal
  check_schema none key parsed s = (ok (value parsed), s)
  check_schema (some schema) key parsed s = elim (schema parsed) [
    | some v ↦ (ok (value v), s)
    | none ↦ (
      ok (corrupt schema_mismatch),
      self_heal key (record s { log = mismatch (prefix_key namespace key) ∷ s.log }),
    )
  ]

  unfoldable pub interpret :
      Option (J → Option J)
      → String
      → String
      → Served redis.Server
      → Outcome (CacheGetResult J) × Served redis.Server
  unfolding self_heal check_schema
  interpret schema key raw s = elim (json.parse raw) [
    | throws err ↦ (
      ok (corrupt json_parse),
      self_heal key (record s { log = parse_failed (prefix_key namespace key) err ∷ s.log }),
    )
    | ok parsed ↦ check_schema schema key parsed s
  ]

  unfoldable pub get :
      Option (J → Option J)
      → String
      → Served redis.Server
      → Outcome (CacheGetResult J) × Served redis.Server
  unfolding interpret
  get schema key s =
      let (settled, server) = redis.read (prefix_key namespace key) s.server in
      let s' = record s { server = server } in
      elim settled [
        | throws err ↦ (throws err, s')
        | ok none ↦ (ok absent, s')
        | ok (some raw) ↦ interpret schema key raw s'
      ]
