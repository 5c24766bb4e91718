-- ===== src/Remote/Exchanges.antt =====
-- The client and the server connected: what is uploaded is downloaded again.
use mathlib.Core.List.{append-nil}
use redo.Base.{
  ℕ, ◌<◌, ◌^◌, ◌≡◌, refl, sym, ap, ◌∙◌, Bool, true, false, [], ◌∷◌, ◌++◌, All, Text, codes, text_eq,
  text_eq_refl, Option, none, some, if◌then◌else◌, arith, Result, ok, err, digest_mismatch,
  has_space, length, has_space, trim_start_by, is_empty,
}
use redo.Remote.{Bytes, Utf8, IsAscii, IsCodec}
use redo.Remote.Http.{Fields, HttpResponse, body_of, write_http_request}
use redo.Remote.Messages.{IsField, noted}
use redo.Remote.Answers.{
  IsValue, field, word-IsValue, all_ascii-IsAscii, append_ascii, take-length,
  read_http_response-write_status,
}
use redo.Remote.Url.{RemoteConfig, join_url}
use redo.Remote.Client.{
  auth_field, auth_headers, answered, call, blob_response, stored_response, get_blob_bytes_verified,
  put_blob_bytes,
}
use redo.Remote.Calls.{IsWord, handle_one-write_http_request}
use redo.Remote.Fields.{IsToken, sent, sent-IsField, typed, auth_ok-sent, content_length-sent}
use redo.Remote.Server.{
  auth_ok, IsKey, Config, Files, Reply, blob_path, read_file, file_exists, write_text,
}
use redo.Remote.Server.Lines.{key_hex, hex_word, read_file_written}
use redo.Remote.Server.Refines.{all_hex-IsAscii}
use redo.Remote.Server.Handlers.{ok_reply, blob_reply, handle_get_blob, handle_put_blob}
use redo.Remote.Server.Dispatch.{blob_at, dispatch_get_blob, dispatch_put_blob}
use redo.Remote.Server.Serve.{handle_one, dispatch}

-- The client's side of a reply; an error closes the connection.
abbrev pub sent_back : Reply → Option Bytes × Files
sent_back (ok bs, fs) = (some bs, fs)
sent_back (err e, fs) = (none, fs)

-- A connection of a client to this server.
unfoldable pub connect :
    Utf8 → (Bytes → Text) → Bool → Config → Bytes → Files → Option Bytes × Files
connect u sha256 renamed server bs fs = sent_back (handle_one u sha256 renamed server bs fs)

-- A client that is set up for the server, at the root of its host.
pub record IsClientOf (server : Config) (cfg : RemoteConfig) : Type 0 where
  pub at_root : cfg.url.base_path ≡ []
  pub host_value : IsValue cfg.url.host
  pub token_is_word : IsToken cfg.bearer_token
  pub same_token : server.require_bearer ≡ cfg.bearer_token

has_space-append :
    (s t : Text) → has_space s ≡ false → has_space t ≡ false → has_space (s ++ t) ≡ false
has_space-append [] t hs ht = ht
has_space-append (c ∷ s) t hs ht = ground (arith, hs, has_space-append s t, ht)

pub path-IsWord :
    (c : ℕ) (s k : Text)
    → has_space (c ∷ s) ≡ false
    → IsAscii (c ∷ s)
    → IsKey k
    → IsWord ((c ∷ s) ++ k)
path-IsWord c s k hs ha hk = record {
  some_text = λ e. cc;
  no_space = has_space-append (c ∷ s) k hs (hex_word k (key_hex k hk));
  ascii = append_ascii (c ∷ s) k ha (all_hex-IsAscii k (key_hex k hk));
}

pub method-IsWord :
    (c : ℕ) (s : Text) → has_space (c ∷ s) ≡ false → IsAscii (c ∷ s) → IsWord (c ∷ s)
method-IsWord c s hs ha = record { some_text = λ e. cc; no_space = hs; ascii = ha }

blob-IsWord : (k : Text) → IsKey k → IsWord (blob_at k)
blob-IsWord k hk =
    path-IsWord b'/' (codes "v1/blobs/") k refl (all_ascii-IsAscii (codes "/v1/blobs/") refl) hk

join_blob :
    (cfg : RemoteConfig) (k : Text)
    → cfg.url.base_path ≡ []
    → join_url cfg.url (codes "v1/blobs/" ++ k) ≡ blob_at k
unfolding join_url trim_start_by is_empty
join_blob cfg k h = rw h refl

abbrev pub ok_answer : Bytes → HttpResponse
ok_answer b = record { status = 200; body = b }

module _ (u : Utf8) (sha256 : Bytes → Text) (renamed : Bool) (server : Config) (cfg : RemoteConfig)
    (codec : IsCodec u) (client : IsClientOf server cfg) where
  -- What the server does with a request of the client.
  pub connect_lem :
      (m path : Text) (extra : Fields) (body : Option Bytes) (fs : Files)
      → IsWord m
      → IsWord path
      → All IsField extra
      → connect u sha256 renamed server
          (write_http_request u m cfg.url.host path (auth_field cfg.bearer_token ++ extra) body)
          fs
        ≡ sent_back (
            dispatch u sha256 renamed server
              (record {
                method = m;
                path = path;
                headers = noted (sent cfg.url.host cfg.bearer_token extra body) [];
              })
              (body_of body)
              fs)
  unfolding connect
  connect_lem m path extra body fs hm hp hf = ap sent_back (
      handle_one-write_http_request u codec sha256 renamed server m path cfg.url.host
        (auth_field cfg.bearer_token ++ extra) body fs hm hp
        (sent-IsField cfg.url.host cfg.bearer_token extra body client.host_value
          client.token_is_word hf))

  typed-IsField : All IsField (typed (codes "application/octet-stream"))
  typed-IsField = (
    field (codes "Content-Type") (codes "application/octet-stream") refl refl refl refl (
        word-IsValue (codes "application/octet-stream") refl refl
          (all_ascii-IsAscii (codes "application/octet-stream") refl)),
    tt,
  )

  ok_length : length (u.encode (codes "ok\n")) < 2 ^ 64
  ok_length =
      rw (codec.encode_ascii (codes "ok\n") (all_ascii-IsAscii (codes "ok\n") refl)) (omega arith)

  -- The reply to a successful upload is read as a success.
  pub answered_ok : answered u stored_response (some (ok_reply u)) ≡ ok tt
  unfolding answered ok_reply write_text stored_response
  answered_ok =
      rw
        (read_http_response-write_status u codec 200 (codes "OK") (u.encode (codes "ok\n"))
          (codes "text/plain") (omega arith) ok_length refl (all_ascii-IsAscii (codes "OK") refl)
          (word-IsValue (codes "text/plain") refl refl
            (all_ascii-IsAscii (codes "text/plain") refl)))
        refl

  put_blob_sent :
      (hex : Text) (b : Bytes) (fs : Files)
      → IsKey hex
      → server.read_only ≡ false
      → length b < 2 ^ 64
      → sent_back (
          dispatch u sha256 renamed server
            (record {
              method = codes "PUT";
              path = blob_at hex;
              headers =
                  noted
                    (sent cfg.url.host cfg.bearer_token
                      (typed (codes "application/octet-stream"))
                      (some b))
                    [];
            })
            b
            fs)
        ≡ sent_back (handle_put_blob u sha256 renamed server hex (length b) b fs)
  put_blob_sent hex b fs hk hr hl =
      let token = cfg.bearer_token in
      let headers =
        noted (sent cfg.url.host token (typed (codes "application/octet-stream")) (some b)) [] in
      ap sent_back (
        dispatch_put_blob u sha256 renamed server hex headers b fs hk hr (
          ap (auth_ok headers) client.same_token
          ∙ auth_ok-sent cfg.url.host token (codes "application/octet-stream") b
              client.token_is_word)
        ∙ ap (λ (n : ℕ). handle_put_blob u sha256 renamed server hex n b fs)
            (content_length-sent cfg.url.host token (codes "application/octet-stream") b hl))

  blob_answered :
      (hex : Text) (b : Bytes)
      → length b < 2 ^ 64
      → answered u (blob_response sha256 hex) (some (blob_reply u (some b)))
        ≡ (if text_eq (sha256 b) hex then ok b else err digest_mismatch)
  unfolding answered blob_reply blob_response
  blob_answered hex b h =
      rw
        (read_http_response-write_status u codec 200 (codes "OK") b
          (codes "application/octet-stream") (omega arith) h refl
          (all_ascii-IsAscii (codes "OK") refl)
          (word-IsValue (codes "application/octet-stream") refl refl
            (all_ascii-IsAscii (codes "application/octet-stream") refl)))
        (ground arith)

  handle_put_blob_new :
      (hex : Text) (b : Bytes) (fs : Files)
      → sha256 b ≡ hex
      → file_exists (blob_path server.root hex) fs ≡ false
      → renamed ≡ true
      → handle_put_blob u sha256 renamed server hex (length b) b fs
        ≡ (ok (ok_reply u), (blob_path server.root hex, b) ∷ fs)
  unfolding handle_put_blob
  handle_put_blob_new hex b fs hs hf hr = rw (take-length b, hs, text_eq_refl hex, hf, hr) refl

  put_blob_new :
      (hex : Text) (b : Bytes) (fs : Files)
      → IsKey hex
      → server.read_only ≡ false
      → length b < 2 ^ 64
      → sha256 b ≡ hex
      → file_exists (blob_path server.root hex) fs ≡ false
      → renamed ≡ true
      → put_blob_bytes u sha256 (connect u sha256 renamed server) cfg hex b fs
        ≡ (ok tt, (blob_path server.root hex, b) ∷ fs)
  unfolding put_blob_bytes call auth_headers
  put_blob_new hex b fs hk hw hl hs hf hr =
      let typed_fields = typed (codes "application/octet-stream") in
      let reply =
        ap
          (λ (p : Text).
            connect u sha256 renamed server
              (write_http_request u (codes "PUT") cfg.url.host p
                (auth_field cfg.bearer_token ++ typed_fields) (some b))
              fs)
          (join_blob cfg hex client.at_root)
        ∙ connect_lem (codes "PUT") (blob_at hex) typed_fields (some b) fs
            (method-IsWord b'P' (codes "UT") refl (all_ascii-IsAscii (codes "PUT") refl))
            (blob-IsWord hex hk) typed-IsField
        ∙ put_blob_sent hex b fs hk hw hl
        ∙ ap sent_back (handle_put_blob_new hex b fs hs hf hr) in
      ap (λ (r : Option Bytes × Files). (answered u stored_response r.0, r.1)) reply
      ∙ ap (λ (a : Result (Unit {0})). (a, (blob_path server.root hex, b) ∷ fs)) answered_ok

  get_blob_there :
      (hex : Text) (b : Bytes) (fs : Files)
      → IsKey hex
      → length b < 2 ^ 64
      → read_file (blob_path server.root hex) fs ≡ some b
      → get_blob_bytes_verified u sha256 (connect u sha256 renamed server) cfg hex fs
        ≡ ((if text_eq (sha256 b) hex then ok b else err digest_mismatch), fs)
  unfolding get_blob_bytes_verified call auth_headers handle_get_blob
  get_blob_there hex b fs hk hl hf =
      let headers = noted (sent cfg.url.host cfg.bearer_token [] none) [] in
      let reply =
        ap
          (λ (p : Text).
            connect u sha256 renamed server
              (write_http_request u (codes "GET") cfg.url.host p (auth_field cfg.bearer_token) none)
              fs)
          (join_blob cfg hex client.at_root)
        ∙ ap
            (λ (f : Fields).
              connect u sha256 renamed server
                (write_http_request u (codes "GET") cfg.url.host (blob_at hex) f none) fs)
            (sym (append-nil (auth_field cfg.bearer_token)))
        ∙ connect_lem (codes "GET") (blob_at hex) [] none fs
            (method-IsWord b'G' (codes "ET") refl (all_ascii-IsAscii (codes "GET") refl))
            (blob-IsWord hex hk) tt
        ∙ ap sent_back (dispatch_get_blob u sha256 renamed server hex headers [] fs hk)
        ∙ ap (λ (o : Option Bytes). sent_back (ok (blob_reply u o), fs)) hf in
      ap (λ (r : Option Bytes × Files). (answered u (blob_response sha256 hex) r.0, r.1)) reply
      ∙ ap (λ (a : Result Bytes). (a, fs)) (blob_answered hex b hl)

-- A blob that a client uploads under its digest, to a server that is not read-only and does
-- not have it, is what any client downloads from it then. Both clients are set up for the
-- server, at the root of its host and with its token; the rename of the server succeeds, the
-- blob has less than 2 ^ 64 bytes, and ASCII texts are their own bytes.
pub get_blob_bytes_verified-put_blob_bytes :
    (u : Utf8) (sha256 : Bytes → Text) (server : Config) (cfg reader : RemoteConfig) (hex : Text)
    (b : Bytes) (fs : Files)
    → IsCodec u
    → IsClientOf server cfg
    → IsClientOf server reader
    → IsKey hex
    → server.read_only ≡ false
    → length b < 2 ^ 64
    → sha256 b ≡ hex
    → file_exists (blob_path server.root hex) fs ≡ false
    → let (put, gs) = put_blob_bytes u sha256 (connect u sha256 true server) cfg hex b fs in
      (put ≡ ok tt)
      × (get_blob_bytes_verified u sha256 (connect u sha256 true server) reader hex gs ≡ (ok b, gs))
get_blob_bytes_verified-put_blob_bytes u sha256 server cfg reader hex b fs codec writes reads hk hw
      hl hs hf =
    rw (put_blob_new u sha256 true server cfg codec writes hex b fs hk hw hl hs hf refl) (
      refl,
      get_blob_there u sha256 true server reader codec reads hex b _ hk hl
            (read_file_written (blob_path server.root hex) b fs)
          ∙ rw (hs, text_eq_refl hex) refl,
    )
