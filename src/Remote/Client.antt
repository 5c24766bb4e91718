-- ===== src/Remote/Client.antt =====
-- The calls of the client in redo_core/src/remote_cache.rs. `exchange` stands for a connection: it
-- sends the request and reads until the server closes, in the server's state; none is an error of
-- the connection. `sha256` gives the digest in hexadecimal.
use redo.Base.{
  ℕ, ◌%◌, ◌^◌, not, [], ◌∷◌, ◌++◌, Text, codes, text_eq, Option, none, some, if◌then◌else◌, ◌==◌,
  ◌||◌, Result, ok, err, io, http_failed, digest_mismatch, bad_manifest, ◌>>=◌, strip_prefix,
  text_or, or_else,
}
use redo.Remote.{Bytes, Utf8}
use redo.Remote.Json.{json_get_string, json_get_u64}
use redo.Remote.Http.{Fields, HttpResponse, write_http_request, read_http_response, number_or_zero}
use redo.Remote.Url.{RemoteConfig, join_url}

abbrev pub auth_field : Option Text → Fields
auth_field none = []
auth_field (some t) = (codes "Authorization", codes "Bearer " ++ t) ∷ []

unfoldable pub auth_headers : RemoteConfig → Fields
auth_headers cfg = auth_field cfg.bearer_token

-- The digest of a manifest under one of three names.
unfoldable pub manifest_of : Text → Option Text
unfolding json_get_string
manifest_of body = or_else (json_get_string body (codes "manifest_sha256")) (
    or_else (json_get_string body (codes "artifact_manifest_sha256"))
      (json_get_string body (codes "artifact_manifest_digest")))

-- What each call makes of the response.
unfoldable pub manifest_response : Utf8 → HttpResponse → Result (Option Text)
unfolding manifest_of
manifest_response u r =
    if r.status == 200
    then ok (manifest_of (u.lossy r.body))
    else if r.status == 404
    then ok none
    else err (http_failed r.status)

unfoldable pub blob_response : (Bytes → Text) → Text → HttpResponse → Result Bytes
unfolding text_eq
blob_response sha256 hex r =
    if not (r.status == 200)
    then err (http_failed r.status)
    else if not (text_eq (sha256 r.body) hex)
    then err digest_mismatch
    else ok r.body

unfoldable pub stored_response : HttpResponse → Result (Unit {0})
stored_response r =
    if r.status == 200 || r.status == 201 || r.status == 204
    then ok tt
    else err (http_failed r.status)

unfoldable pub exec_response : HttpResponse → Result Bytes
exec_response r = if r.status == 200 then ok r.body else err (http_failed r.status)

unfoldable pub mapping_json : Text → Text
mapping_json man =
    codes "{\"schema\":\"redo-action-result:v1\",\"manifest_sha256\":\"" ++ (man ++ codes "\"}")

unfoldable pub answered {ℓ} :
    {A : Type ℓ} → Utf8 → (HttpResponse → Result A) → Option Bytes → Result A
answered u use_response none = err io
answered u use_response (some bs) = read_http_response u bs >>= use_response

module _ {S : Type 0} (u : Utf8) (sha256 : Bytes → Text) (exchange : Bytes → S → Option Bytes × S)
    (cfg : RemoteConfig) where
  -- Open a stream, send the request and read the response.
  unfoldable pub call {ℓ} :
      {A : Type ℓ}
      → (HttpResponse → Result A)
      → Text
      → Text
      → Fields
      → Option Bytes
      → S
      → Result A × S
  call use_response method suffix fields body s =
      let (reply, t) =
        exchange (write_http_request u method cfg.url.host (join_url cfg.url suffix) fields body)
          s in
      (answered u use_response reply, t)

  unfoldable pub get_action_manifest_sha256 : Text → S → Result (Option Text) × S
  get_action_manifest_sha256 key =
      call (manifest_response u) (codes "GET") (codes "v1/actions/" ++ key) (auth_headers cfg) none

  unfoldable pub get_blob_bytes_verified : Text → S → Result Bytes × S
  get_blob_bytes_verified hex =
      call (blob_response sha256 hex) (codes "GET") (codes "v1/blobs/" ++ hex) (auth_headers cfg)
        none

  unfoldable pub put_blob_bytes : Text → Bytes → S → Result (Unit {0}) × S
  put_blob_bytes hex body =
      call stored_response (codes "PUT") (codes "v1/blobs/" ++ hex)
        (auth_headers cfg ++ ((codes "Content-Type", codes "application/octet-stream") ∷ []))
        (some body)

  unfoldable pub put_action_mapping : Text → Text → S → Result (Unit {0}) × S
  put_action_mapping key man =
      call stored_response (codes "PUT") (codes "v1/actions/" ++ key)
        (auth_headers cfg ++ ((codes "Content-Type", codes "application/json") ∷ []))
        (some (u.encode (mapping_json man)))

  unfoldable pub post_exec : Bytes → S → Result Bytes × S
  post_exec body =
      call exec_response (codes "POST") (codes "v1/exec")
        (auth_headers cfg ++ ((codes "Content-Type", codes "application/json") ∷ [])) (some body)

pub record ArtifactManifest : Type 0 where
  pub blob_sha256 : Text
  pub size : ℕ
  pub mode : ℕ

-- A digest names its algorithm. `as u32` keeps the low 32 bits of the mode.
unfoldable pub manifest_with : Text → Option Text → Result ArtifactManifest
unfolding json_get_u64
manifest_with body none = err bad_manifest
manifest_with body (some sha) = ok (record {
  blob_sha256 = sha;
  size = number_or_zero (json_get_u64 body (codes "size"));
  mode = number_or_zero (json_get_u64 body (codes "mode")) % 2 ^ 32;
})

unfoldable pub parse_artifact_manifest_v1 : Text → Result ArtifactManifest
unfolding json_get_string text_eq manifest_with strip_prefix
parse_artifact_manifest_v1 body =
    if not (
      text_eq (text_or [] (json_get_string body (codes "schema")))
        (codes "redo-artifact-manifest:v1"))
    then err bad_manifest
    else if not (text_eq (text_or [] (json_get_string body (codes "kind"))) (codes "file"))
    then err bad_manifest
    else manifest_with body
        (strip_prefix (codes "sha256:") (text_or [] (json_get_string body (codes "digest"))))
