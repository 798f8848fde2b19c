-- ===== src/Cache/Laws.antt =====
-- Reading back what was written, entries of other namespaces, and entries that cannot be read.
use email_platform_services.Common.{
  ℕ, String, Option, none, some, ◌∷◌, ◌≡◌, refl, ap, ◌∙◌, ◌≢◌, inl, inr, str_eq, if◌then◌else◌,
  false, ok, throws, Thrown, Outcome-cases, Bool-cases, Option-cases, eq_iff, eq_refl,
}
use email_platform_services.Cache.{
  parse_failed, mismatch, Redis, Json, CacheGetResult, absent, CorruptReason, corrupt, value,
  json_parse, schema_mismatch, Served, prefix_key, del, set, self_heal, check_schema, interpret,
  get,
}
use email_platform_services.Cache.Namespace.{HasNoColon, prefix_key-injective}

-- The data that a reader with the schema gets from a value.
abbrev pub Accepts : {J : Type 0} → Option (J → Option J) → J → J → Type 0
Accepts none v w = v ≡ w
Accepts (some schema) v w = schema v ≡ some w

-- Why an entry cannot be read.
pub data Unreadable {J : Type 0} (json : Json J) (schema : Option (J → Option J)) (raw : String)
    : CorruptReason → Type 0 where
  no_json : (err : Thrown) → json.parse raw ≡ throws err → Unreadable json schema raw json_parse
  misfit :
      (parsed : J) (f : J → Option J)
      → json.parse raw ≡ ok parsed
      → schema ≡ some f
      → f parsed ≡ none
      → Unreadable json schema raw schema_mismatch

module _ (redis : Redis) {J : Type 0} (json : Json J) (namespace : String)
    (schema : Option (J → Option J)) (key : String) (s : Served redis.Server) where
  -- The state when the server's answer has come.
  abbrev answered : Served redis.Server
  answered = record s { server = (redis.read (prefix_key namespace key) s.server).1 }

  module _ (v : Option String)
      (answer : (redis.read (prefix_key namespace key) s.server).0 ≡ ok v) where
    get-some :
        (raw : String)
        → redis.content s.server (prefix_key namespace key) ≡ some raw
        → get redis json namespace schema key s
          ≡ interpret redis json namespace schema key raw answered
    unfolding get
    get-some raw held = rw (answer ∙ ap ok ((redis.read_ok _ _ v answer).0 ∙ held), get) refl

    get-none :
        redis.content s.server (prefix_key namespace key) ≡ none
        → get redis json namespace schema key s ≡ (ok absent, answered)
    unfolding get
    get-none held = rw (answer ∙ ap ok ((redis.read_ok _ _ v answer).0 ∙ held), get) refl

    interpret-ok :
        (raw : String) (t : Served redis.Server)
        → (r : CacheGetResult J) × ((interpret redis json namespace schema key raw t).0 ≡ ok r)
    unfolding interpret
    interpret-ok raw t = elim (Outcome-cases (json.parse raw)) [
      | inr (err, e) ↦ (corrupt json_parse, rw (e, interpret) refl)
      | inl (parsed, e) ↦ rw (e, interpret) (check-ok schema parsed)
    ]
      where
        check-ok :
            (schema' : Option (J → Option J)) (parsed : J)
            → (r : CacheGetResult J) × ((check_schema redis json namespace schema' key parsed t).0
                ≡ ok r)
        check-ok none parsed = (value parsed, refl)
        check-ok (some f) parsed = elim (Option-cases (f parsed)) [
          | inl e ↦ (corrupt schema_mismatch, rw (e, check_schema) refl)
          | inr (w, e) ↦ (value w, rw (e, check_schema) refl)
        ]

    -- Once the server has answered, a reading does not throw: not for an entry that is no JSON or
    -- does not fit the schema, and not when deleting such an entry fails.
    pub get-ok : (r : CacheGetResult J) × ((get redis json namespace schema key s).0 ≡ ok r)
    get-ok = elim (Option-cases (redis.content s.server (prefix_key namespace key))) [
      | inl held ↦ (absent, ap (λ p. p.0) (get-none held))
      | inr (raw, held) ↦
          let (r, e) = interpret-ok raw answered in (r, ap (λ p. p.0) (get-some raw held) ∙ e)
    ]

    get_accepted :
        (raw : String) (parsed w : J)
        → redis.content s.server (prefix_key namespace key) ≡ some raw
        → json.parse raw ≡ ok parsed
        → Accepts schema parsed w
        → get redis json namespace schema key s ≡ (ok (value w), answered)
    unfolding interpret
    get_accepted raw parsed w held e fits =
        get-some raw held ∙ rw (e, interpret) (accept schema fits)
      where
        accept :
            (schema' : Option (J → Option J))
            → Accepts schema' parsed w
            → check_schema redis json namespace schema' key parsed answered
              ≡ (ok (value w), answered)
        accept none same = rw same refl
        accept (some f) same = rw (same, check_schema) refl

    -- After a write that Redis confirmed, of a value that JSON gives back as it was, a reading that
    -- Redis answers while the entry stands gives the value, or what the reader's schema makes of
    -- it, and leaves no line in the log.
    pub get-set :
        (v' w : J) (ttl : ℕ) (before : redis.Server)
        → json.parse (json.stringify v') ≡ ok v'
        → (set redis json namespace key v' ttl before).0 ≡ ok tt
        → redis.content s.server (prefix_key namespace key)
          ≡ redis.content (set redis json namespace key v' ttl before).1 (prefix_key namespace key)
        → Accepts schema v' w
        → ((get redis json namespace schema key s).0 ≡ ok (value w))
          × ((get redis json namespace schema key s).1.log ≡ s.log)
    unfolding set
    get-set v' w ttl before round_trip confirmed stands fits =
        let held =
          stands
          ∙ redis.write_ok _ _ ttl before confirmed (prefix_key namespace key)
          ∙ simp eq_refl in
        let e = get_accepted _ v' w held round_trip fits in (ap (λ p. p.0) e, ap (λ p. p.1.log) e)

    interpret-Unreadable :
        (raw : String) {reason : CorruptReason} (t : Served redis.Server)
        → Unreadable json schema raw reason
        → (t' : Served redis.Server) × (t'.server ≡ t.server)
          × (interpret redis json namespace schema key raw t
              ≡ (ok (corrupt reason), self_heal redis json namespace key t'))
    unfolding interpret
    interpret-Unreadable raw t (no_json err e) = (
      record t { log = parse_failed (prefix_key namespace key) err ∷ t.log },
      refl,
      rw (e, interpret) refl,
    )
    interpret-Unreadable raw t (misfit parsed f e given no_fit) = (
      record t { log = mismatch (prefix_key namespace key) ∷ t.log },
      refl,
      rw (e, interpret, given, no_fit, check_schema) refl,
    )

    self_heal_ok :
        (t : Served redis.Server)
        → t.server ≡ answered.server
        → (del redis json namespace key answered.server).0 ≡ ok tt
        → (self_heal redis json namespace key t).server
          ≡ (del redis json namespace key answered.server).1
    unfolding self_heal
    self_heal_ok t same confirmed =
        rw (ap (λ r. (del redis json namespace key r).0) same ∙ confirmed, self_heal)
          (ap (λ r. (del redis json namespace key r).1) same)

    -- A reading of an entry that is no JSON, or does not fit the schema, says so and, when Redis
    -- confirms the deletion, leaves a server that holds no entry under this key and the same
    -- entries as before under all others.
    pub get_heals :
        (raw : String) {reason : CorruptReason}
        → redis.content s.server (prefix_key namespace key) ≡ some raw
        → Unreadable json schema raw reason
        → (del redis json namespace key answered.server).0 ≡ ok tt
        → ((get redis json namespace schema key s).0 ≡ ok (corrupt reason))
          × ((k : String)
              → redis.content (get redis json namespace schema key s).1.server k
                ≡ (if str_eq (prefix_key namespace key) k then none else redis.content s.server k))
    unfolding del
    get_heals raw held bad confirmed =
        let (t, same, e) = interpret-Unreadable raw answered bad in
        let whole = get-some raw held ∙ e in
        let healed = self_heal_ok t same confirmed in
        (
          ap (λ p. p.0) whole,
          λ k.
              ap (λ p. redis.content p.1.server k) whole
              ∙ ap (λ r. redis.content r k) healed
              ∙ redis.remove_ok _ _ confirmed k
              ∙ ap (λ o. if str_eq (prefix_key namespace key) k then none else o)
                  ((redis.read_ok _ _ v answer).1 k),
        )

prefix_keys_differ :
    (n m k j : String)
    → HasNoColon n
    → HasNoColon m
    → n ≢ m
    → str_eq (prefix_key n k) (prefix_key m j) ≡ false
prefix_keys_differ n m k j hn hm ne = elim (Bool-cases (str_eq (prefix_key n k) (prefix_key m j))) [
  | inr e ↦ e
  | inl e ↦ absurd (ne (prefix_key-injective n m k j hn hm ((eq_iff _ _).0 e)).0)
]

module _ (redis : Redis) {J : Type 0} (json : Json J) (n m : String) (hn : HasNoColon n)
    (hm : HasNoColon m) (ne : n ≢ m) (k j : String) (r : redis.Server) where
  -- A confirmed write in one namespace leaves every entry of another namespace alone, when neither
  -- name has a colon.
  pub set_other_namespace :
      (v : J) (ttl : ℕ)
      → (set redis json n k v ttl r).0 ≡ ok tt
      → redis.content (set redis json n k v ttl r).1 (prefix_key m j)
        ≡ redis.content r (prefix_key m j)
  unfolding set
  set_other_namespace v ttl c =
      redis.write_ok _ _ ttl r c (prefix_key m j) ∙ rw (prefix_keys_differ n m k j hn hm ne) refl

  -- So does a confirmed deletion.
  pub del_other_namespace :
      (del redis json n k r).0 ≡ ok tt
      → redis.content (del redis json n k r).1 (prefix_key m j) ≡ redis.content r (prefix_key m j)
  unfolding del
  del_other_namespace c =
      redis.remove_ok _ r c (prefix_key m j) ∙ rw (prefix_keys_differ n m k j hn hm ne) refl
