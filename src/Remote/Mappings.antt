-- ===== src/Remote/Mappings.antt =====
-- The client and the server connected: a mapping that is uploaded is found again.
use mathlib.Core.List.{append-nil}
use redo.Base.{
  ℕ, ◌<◌, ◌^◌, ◌≡◌, refl, sym, ap, ◌∙◌, true, false, [], ◌∷◌, ◌++◌, All, Text, codes, Option, none,
  some, text_or, arith, Result, ok, length, length-append, contains, trim_start_by, trim_start,
  is_empty, ltb, strip_prefix, after,
}
use redo.Remote.{Bytes, Utf8, IsAscii, IsCodec}
use redo.Remote.Json.{behind_key, json_get_string}
use redo.Remote.Http.{Fields, write_http_request}
use redo.Remote.Messages.{IsField, noted, split_once_append}
use redo.Remote.Answers.{
  field, word-IsValue, all_ascii-IsAscii, append_ascii, take-length,
  read_http_response-write_status,
}
use redo.Remote.Url.{RemoteConfig, join_url}
use redo.Remote.Client.{
  auth_field, auth_headers, answered, call, manifest_of, manifest_response, stored_response,
  mapping_json, get_action_manifest_sha256, put_action_mapping,
}
use redo.Remote.Calls.{IsWord}
use redo.Remote.Fields.{sent, typed, auth_ok-sent, content_length-sent}
use redo.Remote.Server.{
  all_hex, is_hex, is_key, auth_ok, IsKey, Config, Files, action_path, read_file, write_json,
}
use redo.Remote.Server.Lines.{read_file_written, key_hex, first_line_key}
use redo.Remote.Server.Refines.{key_line-IsAscii, all_hex-IsAscii}
use redo.Remote.Server.Handlers.{
  ok_reply, as_text, requested, mapping_reply, action_reply, check_action, finish_action, against,
  handle_get_action, handle_put_action,
}
use redo.Remote.Server.Dispatch.{action_at, dispatch_get_action, dispatch_put_action}
use redo.Remote.Exchanges.{
  sent_back, connect, IsClientOf, connect_lem, method-IsWord, path-IsWord, answered_ok,
}

hex_unquoted : (s : Text) → all_hex s ≡ true → contains s b'"' ≡ false
hex_unquoted [] h = refl
hex_unquoted (c ∷ s) h = ground (arith, h, hex_unquoted s)

-- The manifest of a printed mapping is read again.
manifest_of-mapping_json : (man : Text) → IsKey man → manifest_of (mapping_json man) ≡ some man
unfolding manifest_of mapping_json json_get_string behind_key after strip_prefix trim_start
    trim_start_by
manifest_of-mapping_json man h =
    rw (split_once_append b'"' man (codes "}") (hex_unquoted man (key_hex man h))) refl

abbrev before_key : Text
before_key = codes "{\"schema\":\"redo-action-result:v1\",\"manifest_sha256\":\""

mapping_json_ascii : (man : Text) → IsKey man → IsAscii (mapping_json man)
unfolding mapping_json
mapping_json_ascii man h =
    append_ascii before_key (man ++ codes "\"}") (all_ascii-IsAscii before_key refl) (
      append_ascii man (codes "\"}") (all_hex-IsAscii man (key_hex man h))
        (all_ascii-IsAscii (codes "\"}") refl))

key_length : (k : Text) → IsKey k → length k ≡ 64
unfolding is_key
key_length k h = ground (arith, h)

key_hexadecimal : (k : Text) → IsKey k → is_hex k ≡ true
unfolding is_key
key_hexadecimal k h = ground (arith, h)

key_not_empty : (k : Text) → IsKey k → is_empty k ≡ false
unfolding is_key is_hex
key_not_empty k h = ground (arith, h)

length-mapping_json : (man : Text) → IsKey man → length (mapping_json man) < 2 ^ 64
unfolding mapping_json
length-mapping_json man h = omega (
  arith,
  length-append before_key (man ++ codes "\"}"),
  length-append man (codes "\"}"),
  key_length man h,
)

action-IsWord : (k : Text) → IsKey k → IsWord (action_at k)
action-IsWord k hk =
    path-IsWord b'/' (codes "v1/actions/") k refl (all_ascii-IsAscii (codes "/v1/actions/") refl) hk

join_action :
    (cfg : RemoteConfig) (k : Text)
    → cfg.url.base_path ≡ []
    → join_url cfg.url (codes "v1/actions/" ++ k) ≡ action_at k
unfolding join_url trim_start_by is_empty
join_action cfg k h = rw h refl

module _ (u : Utf8) (codec : IsCodec u) (server : Config) where
  encoded : (man : Text) → IsKey man → u.encode (mapping_json man) ≡ mapping_json man
  encoded man h = codec.encode_ascii (mapping_json man) (mapping_json_ascii man h)

  sent_length : (man : Text) → IsKey man → length (u.encode (mapping_json man)) < 2 ^ 64
  sent_length man h = rw (encoded man h) (length-mapping_json man h)

  manifest_sent :
      (man : Text) → IsKey man → manifest_of (u.lossy (u.encode (mapping_json man))) ≡ some man
  manifest_sent man h =
      ap (λ (b : Bytes). manifest_of (u.lossy b)) (encoded man h)
      ∙ ap manifest_of (codec.lossy_ascii (mapping_json man) (mapping_json_ascii man h))
      ∙ manifest_of-mapping_json man h

  requested_lem : (man : Text) → IsKey man → requested u (u.encode (mapping_json man)) ≡ man
  unfolding requested
  requested_lem man h = ap (text_or []) (manifest_sent man h)

  abbrev stored_mapping : Text → Text → Files → Files
  stored_mapping k man fs = (action_path server.root k, u.encode (man ++ (10 ∷ []))) ∷ fs

  handle_put_action_new :
      (k man : Text) (fs : Files)
      → IsKey man
      → as_text u (read_file (action_path server.root k) fs) ≡ none
      → let body = u.encode (mapping_json man) in
        handle_put_action u true server k (length body) body fs
        ≡ (ok (ok_reply u), stored_mapping k man fs)
  unfolding handle_put_action check_action finish_action against
  handle_put_action_new k man fs hm hn =
      let body = u.encode (mapping_json man) in
      let whole : ltb (length body) (length body) ≡ false = ground arith in
      rw (whole, take-length body, requested_lem man hm, hm, hn) refl

  handle_get_action_there :
      (k man : Text) (fs : Files)
      → IsKey man
      → handle_get_action u server k (stored_mapping k man fs)
        ≡ (ok (write_json u 200 (codes "OK") (mapping_json man)), stored_mapping k man fs)
  unfolding handle_get_action action_reply mapping_reply
  handle_get_action_there k man fs hm =
      let line = man ++ (10 ∷ []) in
      let read : u.decode (u.encode line) ≡ some line =
        ap u.decode (codec.encode_ascii line (key_line-IsAscii man hm))
        ∙ codec.decode_ascii line (key_line-IsAscii man hm) in
      rw
        (
          read_file_written (action_path server.root k) (u.encode line) fs,
          read,
          first_line_key man hm,
          key_hexadecimal man hm,
          key_not_empty man hm,
        )
        refl

module _ (u : Utf8) (sha256 : Bytes → Text) (server : Config) (cfg : RemoteConfig)
    (codec : IsCodec u) (client : IsClientOf server cfg) where
  json-IsField : All IsField (typed (codes "application/json"))
  json-IsField = (
    field (codes "Content-Type") (codes "application/json") refl refl refl refl (
        word-IsValue (codes "application/json") refl refl
          (all_ascii-IsAscii (codes "application/json") refl)),
    tt,
  )

  mapping_answered :
      (man : Text)
      → IsKey man
      → answered u (manifest_response u) (some (write_json u 200 (codes "OK") (mapping_json man)))
        ≡ ok (some man)
  unfolding answered write_json manifest_response
  mapping_answered man hm =
      rw
        (
          read_http_response-write_status u codec 200 (codes "OK") (u.encode (mapping_json man))
              (codes "application/json") (omega arith) (sent_length u codec server man hm) refl
              (all_ascii-IsAscii (codes "OK") refl)
              (word-IsValue (codes "application/json") refl refl
                (all_ascii-IsAscii (codes "application/json") refl)),
          manifest_sent u codec server man hm,
        )
        refl

  put_mapping_new :
      (k man : Text) (fs : Files)
      → IsKey k
      → IsKey man
      → server.read_only ≡ false
      → as_text u (read_file (action_path server.root k) fs) ≡ none
      → put_action_mapping u sha256 (connect u sha256 true server) cfg k man fs
        ≡ (ok tt, stored_mapping u codec server k man fs)
  unfolding put_action_mapping call auth_headers
  put_mapping_new k man fs hk hm hw hn =
      let json = typed (codes "application/json") in
      let body = u.encode (mapping_json man) in
      let headers = noted (sent cfg.url.host cfg.bearer_token json (some body)) [] in
      let reply =
        ap
          (λ (p : Text).
            connect u sha256 true server
              (write_http_request u (codes "PUT") cfg.url.host p
                (auth_field cfg.bearer_token ++ json) (some body))
              fs)
          (join_action cfg k client.at_root)
        ∙ connect_lem u sha256 true server cfg codec client (codes "PUT") (action_at k) json
            (some body) fs
            (method-IsWord b'P' (codes "UT") refl (all_ascii-IsAscii (codes "PUT") refl))
            (action-IsWord k hk) json-IsField
        ∙ ap sent_back (
            dispatch_put_action u sha256 true server k headers body fs hk hw (
              ap (auth_ok headers) client.same_token
              ∙ auth_ok-sent cfg.url.host cfg.bearer_token (codes "application/json") body
                  client.token_is_word)
            ∙ ap (λ (n : ℕ). handle_put_action u true server k n body fs)
                (content_length-sent cfg.url.host cfg.bearer_token (codes "application/json") body
                  (sent_length u codec server man hm))
            ∙ handle_put_action_new u codec server k man fs hm hn) in
      ap (λ (r : Option Bytes × Files). (answered u stored_response r.0, r.1)) reply
      ∙ ap (λ (a : Result (Unit {0})). (a, stored_mapping u codec server k man fs))
          (answered_ok u sha256 true server cfg codec client)

  get_mapping_there :
      (k man : Text) (fs : Files)
      → IsKey k
      → IsKey man
      → get_action_manifest_sha256 u sha256
          (connect u sha256 true server)
          cfg
          k
          (stored_mapping u codec server k man fs)
        ≡ (ok (some man), stored_mapping u codec server k man fs)
  unfolding get_action_manifest_sha256 call auth_headers
  get_mapping_there k man fs hk hm =
      let gs = stored_mapping u codec server k man fs in
      let headers = noted (sent cfg.url.host cfg.bearer_token [] none) [] in
      let reply =
        ap
          (λ (p : Text).
            connect u sha256 true server
              (write_http_request u (codes "GET") cfg.url.host p (auth_field cfg.bearer_token) none)
              gs)
          (join_action cfg k client.at_root)
        ∙ ap
            (λ (f : Fields).
              connect u sha256 true server
                (write_http_request u (codes "GET") cfg.url.host (action_at k) f none) gs)
            (sym (append-nil (auth_field cfg.bearer_token)))
        ∙ connect_lem u sha256 true server cfg codec client (codes "GET") (action_at k) [] none gs
            (method-IsWord b'G' (codes "ET") refl (all_ascii-IsAscii (codes "GET") refl))
            (action-IsWord k hk) tt
        ∙ ap sent_back (
            dispatch_get_action u sha256 true server k headers [] gs hk
            ∙ handle_get_action_there u codec server k man fs hm) in
      ap (λ (r : Option Bytes × Files). (answered u (manifest_response u) r.0, r.1)) reply
      ∙ ap (λ (a : Result (Option Text)). (a, gs)) (mapping_answered man hm)

-- The manifest that a client uploads for an action, to a server that is not read-only and has
-- no mapping for it, is what any client finds for the action then. Both clients are set up for
-- the server, at the root of its host and with its token; the rename of the server succeeds,
-- action and manifest are keys, and ASCII texts are their own bytes.
pub get_action_manifest_sha256-put_action_mapping :
    (u : Utf8) (sha256 : Bytes → Text) (server : Config) (cfg reader : RemoteConfig) (k man : Text)
    (fs : Files)
    → IsCodec u
    → IsClientOf server cfg
    → IsClientOf server reader
    → IsKey k
    → IsKey man
    → server.read_only ≡ false
    → as_text u (read_file (action_path server.root k) fs) ≡ none
    → let (put, gs) = put_action_mapping u sha256 (connect u sha256 true server) cfg k man fs in
      (put ≡ ok tt)
      × (get_action_manifest_sha256 u sha256 (connect u sha256 true server) reader k gs
          ≡ (ok (some man), gs))
get_action_manifest_sha256-put_action_mapping u sha256 server cfg reader k man fs codec writes reads
      hk hm hw hn =
    rw (put_mapping_new u sha256 server cfg codec writes k man fs hk hm hw hn)
      (refl, get_mapping_there u sha256 server reader codec reads k man fs hk hm)
