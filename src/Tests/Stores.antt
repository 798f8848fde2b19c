-- ===== src/Tests/Stores.antt =====
-- Examples for the cache and for object storage.
use email_platform_services.Common.{
  ℕ, ◌≤◌, ◌≡◌, ◌≢◌, refl, sym, false, none, some, Option, List, [], ◌∷◌, All, length, String, arith,
  Outcome, ok, throws, Thrown, plain_error, str_eq, if◌then◌else◌, native_error, eq_iff,
}
use email_platform_services.Cache.{
  Redis, Json, get, set, del, prefix_key, Served, value, corrupt, json_parse,
}
use email_platform_services.Cache.Namespace.{HasNoColon}
use email_platform_services.Cache.Laws.{get-set, get_heals, no_json}
use email_platform_services.Storage.{
  Text, S3, Piped, passed, failed, pipe, sanitize_filename, build_public_url, upload_stream,
  object_key, Uploaded,
}
use email_platform_services.Storage.Names.{IsSafe, sanitize_filename-IsSafe}
use email_platform_services.Storage.Limit.{IsLimited, pipe-IsLimited}
use email_platform_services.Storage.Objects.{upload_stream-ok}

-- A server that is a function of the key.
abbrev Entries : Type 0
Entries = String → Option String

read_ok : {A : Type 0} (a b : A) → ok a ≡ ok b → b ≡ a
read_ok a b e = cc

abbrev redis : Redis
redis = record {
  Server = Entries;
  content = λ r k. r k;
  read = λ k r. (ok (r k), r);
  write = λ k v ttl r. (ok tt, λ j. if str_eq k j then some v else r j);
  remove = λ k r. (ok tt, λ j. if str_eq k j then none else r j);
  read_ok = λ k r v e. (read_ok (r k) v e, λ j. refl);
  write_ok = λ k v ttl r e j. refl;
  remove_ok = λ k r e j. refl;
}

abbrev parse : String → Outcome ℕ
parse s = if str_eq s "1" then ok 1 else throws (plain_error "Unexpected token")

abbrev json : Json ℕ
json = record { parse = parse; stringify = λ n. "1" }

abbrev holding : String → Served Entries
holding raw = record { server = λ k. some raw; log = [] }

abbrev app : String
app = "app"

abbrev k1 : String
k1 = "k"

app-HasNoColon : HasNoColon "app"
app-HasNoColon = (omega arith, (omega arith, (omega arith, tt)))

a-HasNoColon : HasNoColon "a"
a-HasNoColon = (omega arith, tt)

b-HasNoColon : HasNoColon "b"
b-HasNoColon = (omega arith, tt)

a-ne-b : ◌≢◌ {A = String} "a" "b"
a-ne-b = ground (arith, eq_iff "a" "b")

get-set_example :
    let written = (set redis json "app" "k" 1 60000 (λ k. none)).1 in
    let s : Served Entries = record { server = written; log = [] } in
    ((get redis json "app" none "k" s).0 ≡ ok (value 1))
    × ((get redis json "app" none "k" s).1.log ≡ [])
unfolding set prefix_key
get-set_example =
    let s : Served Entries = record {
      server = (set redis json "app" "k" 1 60000 (λ k. none)).1;
      log = [];
    } in
    get-set redis json "app" none "k" s (some "1") refl 1 1 60000 (λ k. none) refl refl refl refl

get_heals_example :
    ((get redis json "app" none "k" (holding "{")).0 ≡ ok (corrupt json_parse))
    × ((k : String)
        → (get redis json "app" none "k" (holding "{")).1.server k
          ≡ (if str_eq (prefix_key "app" "k") k then none else some "{"))
unfolding del
get_heals_example =
    get_heals redis json "app" none "k" (holding "{") (some "{") refl "{" refl
      (no_json (plain_error "Unexpected token") refl) refl

abbrev missing : Thrown
missing =
    native_error
      (record { name = "NotFound"; message = "NotFound"; is_type_error = false; cause = none })

abbrev head : Option Text → Outcome (Unit {0})
head none = throws missing
head (some body) = ok tt

abbrev stored : Piped → Option Text → Outcome (Unit {0}) × Option Text
stored (passed out) s = (ok tt, some [])
stored (failed out e) s = (throws (plain_error "too large"), s)

head_ok : (s : Option Text) → head s ≡ ok tt → (body : Text) × (s ≡ some body)
head_ok (some body) e = (body, refl)
head_ok none e = cc

head_missing : (s : Option Text) (err : Thrown) → head s ≡ throws err → s ≡ none
head_missing none err e = refl
head_missing (some body) err e = cc

stored-passed :
    (body : Piped) (s : Option Text)
    → (stored body s).0 ≡ ok tt
    → (out : List Text) × (body ≡ passed out)
stored-passed (passed out) s e = (out, refl)
stored-passed (failed out err) s e = cc

-- A store with room for one object.
abbrev s3 : S3
s3 = record {
  Store = Option Text;
  object = λ s bucket key. s;
  put = λ bucket key body type s. (ok tt, some body);
  fetch = λ bucket key s. (ok s, s);
  head = λ bucket key s. (head s, s);
  remove = λ bucket key s. (ok tt, none);
  upload = λ bucket key type body s. stored body s;
  put_ok = λ bucket key body type s e. refl;
  fetch_ok = λ bucket key s body e. sym (read_ok s body e);
  head_ok = λ bucket key s e. head_ok s e;
  head_missing = λ bucket key s err e n. head_missing s err e;
  remove_ok = λ bucket key s e. refl;
  upload_passed = λ bucket key type body s e. stored-passed body s e;
}

abbrev bytes : Text
bytes = 7 ∷ 8 ∷ []

abbrev s3_empty : Option Text
s3_empty = none

upload_stream-ok_example :
    let r : Uploaded = record {
      url = 98 ∷ 47 ∷ 110 ∷ 47 ∷ 117 ∷ 47 ∷ 95 ∷ [];
      key = 110 ∷ 47 ∷ 117 ∷ 47 ∷ 95 ∷ [];
    } in
    (3 ≤ 4)
    × (pipe 4 0 ((1 ∷ 2 ∷ []) ∷ (3 ∷ []) ∷ []) ≡ passed ((1 ∷ 2 ∷ []) ∷ (3 ∷ []) ∷ []))
    × (r.key ≡ object_key s3 (98 ∷ []) (110 ∷ []) [] (98 ∷ 47 ∷ []) 4 (117 ∷ []) (47 ∷ []))
    × (r.url ≡ build_public_url (98 ∷ 47 ∷ []) (98 ∷ []) r.key)
unfolding upload_stream pipe build_public_url sanitize_filename
upload_stream-ok_example =
    upload_stream-ok s3 (98 ∷ []) (110 ∷ []) [] (98 ∷ 47 ∷ []) 4 (117 ∷ []) (47 ∷ [])
      ((1 ∷ 2 ∷ []) ∷ (3 ∷ []) ∷ []) none
      (record {
        url = 98 ∷ 47 ∷ 110 ∷ 47 ∷ 117 ∷ 47 ∷ 95 ∷ [];
        key = 110 ∷ 47 ∷ 117 ∷ 47 ∷ 95 ∷ [];
      })
      refl

sanitize_filename-IsSafe_example :
    All IsSafe (sanitize_filename (47 ∷ 46 ∷ 97 ∷ []))
    × (length (sanitize_filename (47 ∷ 46 ∷ 97 ∷ [])) ≤ 255)
sanitize_filename-IsSafe_example = sanitize_filename-IsSafe (47 ∷ 46 ∷ 97 ∷ [])

pipe-IsLimited_example :
    IsLimited 4 0
      ((1 ∷ 2 ∷ 3 ∷ []) ∷ (4 ∷ 5 ∷ []) ∷ [])
      (pipe 4 0 ((1 ∷ 2 ∷ 3 ∷ []) ∷ (4 ∷ 5 ∷ []) ∷ []))
pipe-IsLimited_example = pipe-IsLimited 4 0 ((1 ∷ 2 ∷ 3 ∷ []) ∷ (4 ∷ 5 ∷ []) ∷ []) (omega arith)
