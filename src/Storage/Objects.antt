-- ===== src/Storage/Objects.antt =====
-- What the two storage services leave in the store, and what they report.
use email_platform_services.Common.{
  ℕ, ◌≤◌, ◌≡◌, ◌≢◌, ◌⊎◌, sym, ap, ◌∙◌, subst, Bool, true, false, none, some, List, String, ok,
  throws, Thrown, Outcome-cases, Option-cases, inl, inr, arith, eq_iff,
}
use email_platform_services.Http.Errors.{error_name}
use email_platform_services.Storage.{
  Text, S3, passed, pipe, put_object, download, delete_object, exists, is_not_found, Uploaded,
  upload_stream, object_key, build_public_url,
}
use email_platform_services.Storage.Limit.{IsLimited, pipe-IsLimited, total}

module _ (s3 : S3) (bucket : Text) where
  download-eq-ok :
      (empty_body : String) (key bytes : Text) (s : s3.Store)
      → (download s3 bucket empty_body key s).0 ≡ ok bytes
      → (s3.fetch bucket key s).0 ≡ ok (some bytes)
  unfolding download
  download-eq-ok empty_body key bytes s got = ground arith

  -- A download that succeeds after a successful upload of the same key gives the uploaded bytes.
  pub download-put_object :
      (empty_body : String) (key body type bytes : Text) (s : s3.Store)
      → (put_object s3 bucket key body type s).0 ≡ ok tt
      → (download s3 bucket empty_body key (put_object s3 bucket key body type s).1).0 ≡ ok bytes
      → bytes ≡ body
  unfolding put_object
  download-put_object empty_body key body type bytes s stored got =
      let held = s3.put_ok bucket key body type s stored in
      let read = s3.fetch_ok bucket key _ _ (download-eq-ok empty_body key bytes _ got) in
      cc (held, read)

  -- `exists` says true only of a key that holds an object, and false only of one that holds none.
  pub exists_sound :
      (key : Text) (s : s3.Store) (b : Bool)
      → (exists s3 bucket key s).0 ≡ ok b
      → (b ≡ true × ((body : Text) × (s3.object s bucket key ≡ some body)))
        ⊎ (b ≡ false × (s3.object s bucket key ≡ none))
  unfolding exists is_not_found
  exists_sound key s b h = elim (Outcome-cases (s3.head bucket key s).0) [
    | inl (found, e) ↦ inl (ground arith, s3.head_ok bucket key s e)
    | inr (err, e) ↦ inr (missing err e)
  ]
    where
      missing :
          (err : Thrown)
          → (s3.head bucket key s).0 ≡ throws err
          → (b ≡ false) × (s3.object s bucket key ≡ none)
      missing err e = elim (Option-cases (error_name err)) [
        | inl n ↦ ground arith
        | inr (name, n) ↦ ground (arith, eq_iff name "NotFound", s3.head_missing bucket key s err e)
      ]

  -- After a confirmed deletion a download of the key does not succeed.
  pub download-delete_object :
      (empty_body : String) (key bytes : Text) (s : s3.Store)
      → (delete_object s3 bucket key s).0 ≡ ok tt
      → (download s3 bucket empty_body key (delete_object s3 bucket key s).1).0 ≢ ok bytes
  unfolding delete_object
  download-delete_object empty_body key bytes s gone got =
      let held = s3.remove_ok bucket key s gone in
      let read = s3.fetch_ok bucket key _ _ (download-eq-ok empty_body key bytes _ got) in
      cc (held, read)

module _ (s3 : S3) (bucket namespace content_type public_url_base : Text) (max_bytes : ℕ) where
  upload-eq-ok :
      (uuid filename : Text) (body : List Text) (s : s3.Store) (r : Uploaded)
      → (upload_stream s3 bucket namespace content_type public_url_base max_bytes uuid filename body
          s).0
        ≡ ok r
      → let key =
          object_key s3 bucket namespace content_type public_url_base max_bytes uuid filename in
        ((s3.upload bucket key content_type (pipe max_bytes 0 body) s).0 ≡ ok tt)
        × (r ≡ record { url = build_public_url public_url_base bucket key; key = key })
  unfolding upload_stream
  upload-eq-ok uuid filename body s r h =
      let key =
        object_key s3 bucket namespace content_type public_url_base max_bytes uuid filename in
      elim (Outcome-cases (s3.upload bucket key content_type (pipe max_bytes 0 body) s).0) [
        | inl (done, e) ↦ (e, ground arith)
        | inr (err, e) ↦ ground arith
      ]

  -- An upload that succeeds sends every byte of the stream, which has at most `max_bytes` of them,
  -- and answers with the key and the public URL of that key.
  pub upload_stream-ok :
      (uuid filename : Text) (body : List Text) (s : s3.Store) (r : Uploaded)
      → (upload_stream s3 bucket namespace content_type public_url_base max_bytes uuid filename body
          s).0
        ≡ ok r
      → (total body ≤ max_bytes)
        × (pipe max_bytes 0 body ≡ passed body)
        × (r.key
            ≡ object_key s3 bucket namespace content_type public_url_base max_bytes uuid filename)
        × (r.url ≡ build_public_url public_url_base bucket r.key)
  upload_stream-ok uuid filename body s r h =
      let (sent, answer) = upload-eq-ok uuid filename body s r h in
      let (out, whole) = s3.upload_passed bucket _ content_type _ s sent in
      let (same, fits) =
        subst (IsLimited max_bytes 0 body) whole (pipe-IsLimited max_bytes 0 body (omega arith)) in
      (
        omega arith,
        whole ∙ ap passed same,
        ap (λ u. u.key) answer,
        ap (λ u. u.url) answer
            ∙ ap (build_public_url public_url_base bucket) (sym (ap (λ u. u.key) answer)),
      )
