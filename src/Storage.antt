-- ===== src/Storage.antt =====
-- packages/foundation/src/external/storage/public and src/internal/storage of the same package:
-- names and URLs of uploads, the size limit on an upload's stream, and the two storage services
-- over an S3 client, which is a parameter. Texts are lists of UTF-16 code units here.
pub mod Names
pub mod Limit
pub mod Objects
use email_platform_services.Common.{
  ℕ, zero, suc, ◌+◌, ◌≡◌, Bool, true, false, ◌||◌, Option, none, some, List, [], ◌∷◌, ◌++◌, map,
  leb, ltb, ◌==◌, length, if◌then◌else◌, String, str_eq, Outcome, ok, throws, Thrown, plain_error,
}
use email_platform_services.Http.Errors.{error_name}

abbrev pub Text : Type 0
Text = List ℕ

abbrev pub path_separator : ℕ
path_separator = 47

abbrev pub max_length : ℕ
max_length = 255

abbrev pub replacement : ℕ
replacement = 95

-- `/[\\/\x00-\x1f\x7f]/` on one code unit.
unfoldable pub is_unsafe : ℕ → Bool
is_unsafe c = c == 92 || c == path_separator || leb c 31 || c == 127

unfoldable pub make_safe : ℕ → ℕ
unfolding is_unsafe
make_safe c = if is_unsafe c then replacement else c

-- `text.slice(0, n)`.
unfoldable pub slice_to : ℕ → Text → Text
slice_to zero text = []
slice_to (suc n) [] = []
slice_to (suc n) (c ∷ text) = c ∷ slice_to n text

unfoldable pub sanitize_filename : Text → Text
unfolding make_safe slice_to
sanitize_filename raw =
    let stripped = map make_safe raw in
    if ltb max_length (length stripped) then slice_to max_length stripped else stripped

unfoldable pub ends_with_separator : Text → Bool
ends_with_separator [] = false
ends_with_separator (c ∷ []) = c == path_separator
ends_with_separator (c ∷ d ∷ text) = ends_with_separator (d ∷ text)

-- `text.slice(0, -1)`.
unfoldable pub drop_last : Text → Text
drop_last [] = []
drop_last (c ∷ []) = []
drop_last (c ∷ d ∷ text) = c ∷ drop_last (d ∷ text)

unfoldable pub build_public_url : Text → Text → Text → Text
unfolding ends_with_separator drop_last
build_public_url base bucket key =
    let trimmed = if ends_with_separator base then drop_last base else base in
    trimmed ++ path_separator ∷ key

pub record StorageUploadTooLargeError : Type 0 where
  pub seen : ℕ
  pub max : ℕ

-- What leaves a `SizeCountingTransform`: all chunks, or those before the error.
pub data Piped : Type 0 where
  passed : List Text → Piped
  failed : List Text → StorageUploadTooLargeError → Piped

-- `_transform`: the new count, and the error if the chunk is one too many.
unfoldable pub transform : ℕ → ℕ → Text → ℕ × Option StorageUploadTooLargeError
transform max seen chunk =
    let seen' = seen + length chunk in
    (seen', if ltb max seen' then some (record { seen = seen'; max = max }) else none)

unfoldable pub forward : Text → Piped → Piped
forward chunk (passed out) = passed (chunk ∷ out)
forward chunk (failed out e) = failed (chunk ∷ out) e

-- A stream of chunks through the transform, which starts with the count `seen`.
unfoldable pub pipe : ℕ → ℕ → List Text → Piped
unfolding transform forward
pipe max seen [] = passed []
pipe max seen (chunk ∷ chunks) =
    let (seen', problem) = transform max seen chunk in
    let rest = pipe max seen' chunks in
    elim problem [ some e ↦ failed [] e | none ↦ forward chunk rest ]

-- The S3 client: `object` is what the store holds under a bucket and a key; each call settles and
-- leaves a store.
pub record S3 : Type 1 where
  pub Store : Type 0
  pub object : Store → Text → Text → Option Text
  pub put : Text → Text → Text → Text → Store → Outcome (Unit {0}) × Store
  pub fetch : Text → Text → Store → Outcome (Option Text) × Store
  pub head : Text → Text → Store → Outcome (Unit {0}) × Store
  pub remove : Text → Text → Store → Outcome (Unit {0}) × Store
  pub upload : Text → Text → Text → Piped → Store → Outcome (Unit {0}) × Store
  pub put_ok :
      (bucket key body type : Text) (s : Store)
      → (put bucket key body type s).0 ≡ ok tt
      → object (put bucket key body type s).1 bucket key ≡ some body
  pub fetch_ok :
      (bucket key : Text) (s : Store) (body : Option Text)
      → (fetch bucket key s).0 ≡ ok body
      → object s bucket key ≡ body
  pub head_ok :
      (bucket key : Text) (s : Store)
      → (head bucket key s).0 ≡ ok tt
      → (body : Text) × (object s bucket key ≡ some body)
  pub head_missing :
      (bucket key : Text) (s : Store) (err : Thrown)
      → (head bucket key s).0 ≡ throws err
      → error_name err ≡ some "NotFound"
      → object s bucket key ≡ none
  pub remove_ok :
      (bucket key : Text) (s : Store)
      → (remove bucket key s).0 ≡ ok tt
      → object (remove bucket key s).1 bucket key ≡ none
  pub upload_passed :
      (bucket key type : Text) (body : Piped) (s : Store)
      → (upload bucket key type body s).0 ≡ ok tt
      → (out : List Text) × (body ≡ passed out)

-- `err.name === 'NotFound'` of an object; the client throws no other values than errors.
unfoldable pub is_not_found : Thrown → Bool
unfolding error_name
is_not_found err = elim (error_name err) [ none ↦ false | some name ↦ str_eq name "NotFound" ]

module _ (s3 : S3) (bucket : Text) where
  -- `S3StorageService`.
  unfoldable pub put_object : Text → Text → Text → s3.Store → Outcome (Unit {0}) × s3.Store
  put_object key body content_type = s3.put bucket key body content_type

  unfoldable pub download : String → Text → s3.Store → Outcome Text × s3.Store
  download empty_body key s =
      let (settled, s') = s3.fetch bucket key s in
      elim settled [
        | throws err ↦ (throws err, s')
        | ok none ↦ (throws (plain_error empty_body), s')
        | ok (some bytes) ↦ (ok bytes, s')
      ]

  unfoldable pub delete_object : Text → s3.Store → Outcome (Unit {0}) × s3.Store
  delete_object key = s3.remove bucket key

  unfoldable pub exists : Text → s3.Store → Outcome Bool × s3.Store
  unfolding is_not_found
  exists key s =
      let (settled, s') = s3.head bucket key s in
      elim settled [
        | ok found ↦ (ok true, s')
        | throws err ↦ if is_not_found err then (ok false, s') else (throws err, s')
      ]

pub record Uploaded : Type 0 where
  pub url : Text
  pub key : Text

-- `NamespacedStorageService.upload`; `uuid` is the draw of `randomUUID`.
module _ (s3 : S3) (bucket namespace content_type public_url_base : Text) (max_bytes : ℕ) where
  unfoldable pub object_key : Text → Text → Text
  object_key uuid filename =
      namespace ++ (path_separator ∷ (uuid ++ (path_separator ∷ sanitize_filename filename)))

  unfoldable pub upload_stream : Text → Text → List Text → s3.Store → Outcome Uploaded × s3.Store
  unfolding object_key
  upload_stream uuid filename body s =
      let key = object_key uuid filename in
      let (settled, s') = s3.upload bucket key content_type (pipe max_bytes 0 body) s in
      elim settled [
        | throws err ↦ (throws err, s')
        | ok done ↦
            (ok (record { url = build_public_url public_url_base bucket key; key = key }), s')
      ]
