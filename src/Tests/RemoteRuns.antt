-- ===== src/Tests/RemoteRuns.antt =====
-- redo_core/src/remote_cache.rs and bins/src/redo_cache_server.rs
use redo.Base.{
  Option, zero, suc, ℕ, ◌+◌, ◌%◌, ◌≡◌, refl, true, false, [], ◌∷◌, ◌++◌, Text, codes, text_eq, some,
  arith, ok, sym, ◌∙◌, split_once, trim, to_ascii_lowercase, split_whitespace, parse_unsigned,
  trim_end_by, strip_prefix, to_string, length,
}
use redo.Remote.{Bytes, Utf8, IsCodec}
use redo.Remote.Http.{
  print_fields, read_headers, use_line, note_header, header, Headers, take_line, all_headers,
  write_http_request, write_status, read_http_response,
}
use redo.Remote.Url.{RemoteConfig}
use redo.Remote.Client.{
  put_action_mapping, get_action_manifest_sha256, put_blob_bytes, get_blob_bytes_verified,
}
use redo.Remote.Answers.{word-IsValue, all_ascii-IsAscii, read_http_response-write_status}
use redo.Remote.Mappings.{get_action_manifest_sha256-put_action_mapping}
use redo.Remote.Exchanges.{
  connect, IsClientOf, method-IsWord, get_blob_bytes_verified-put_blob_bytes,
}
use redo.Remote.Server.{file_exists, is_key, Config, blob_path, auth_ok, read_file}
use redo.Remote.Server.Handlers.{handle_put_blob, as_text}
use redo.Remote.Server.Serve.{
  after_line, with_headers, request_words, dispatch, writes_files, route, trim_slashes,
  serve_blob_or, serve_blob, content_length, handle_one,
}
use redo.Remote.Server.Spec.{Step, IsStored, Extends}
use redo.Remote.Server.Views.{view}
use redo.Remote.Server.Requests.{
  HasToken, serve_all, handle_one-Takes, handle_one_change, serve_all-IsStored, serve_all-Extends,
}

-- A codec on texts of ASCII characters.
abbrev ascii : Utf8
ascii = record { encode = λ s. s; decode = λ b. some b; lossy = λ b. b }

ascii-IsCodec : IsCodec ascii
ascii-IsCodec = record {
  encode_ascii = λ s h. refl;
  decode_ascii = λ s h. refl;
  lossy_ascii = λ s h. refl;
}

abbrev copies : ℕ → ℕ → Text
copies zero c = []
copies (suc n) c = c ∷ copies n c

-- A digest that counts the bytes.
abbrev digest : Bytes → Text
digest b = (48 + length b % 10) ∷ copies 63 b'a'

abbrev key : Text
key = digest (codes "abc")

abbrev other : Text
other = copies 64 b'f'

abbrev stored : Text → Bytes
stored m = codes "{\"manifest_sha256\":\"" ++ (m ++ codes "\"}")

abbrev server : Config
server = record {
  root = codes "/srv";
  read_only = false;
  require_bearer = some (codes "tok");
  enable_exec = false;
}

abbrev client : RemoteConfig
client = record {
  url = record { host = codes "cache.local"; port = 80; base_path = [] };
  timeout = 5;
  bearer_token = some (codes "tok");
  push_enabled = true;
}

client-IsClientOf : IsClientOf server client
client-IsClientOf = record {
  at_root = refl;
  host_value =
      word-IsValue (codes "cache.local") refl refl (all_ascii-IsAscii (codes "cache.local") refl);
  token_is_word = method-IsWord b't' (codes "ok") refl (all_ascii-IsAscii (codes "tok") refl);
  same_token = refl;
}

upload : Bytes
upload =
    write_http_request ascii (codes "PUT") (codes "cache.local") (codes "/v1/blobs/" ++ key)
      ((codes "Authorization", codes "Bearer tok") ∷ []) (some (codes "abc"))

get_blob_bytes_verified-put_blob_bytes_example :
    let (put, gs) =
      put_blob_bytes ascii digest (connect ascii digest true server) client key (codes "abc") [] in
    (put ≡ ok tt)
    × (get_blob_bytes_verified ascii digest (connect ascii digest true server) client key gs
        ≡ (ok (codes "abc"), gs))
unfolding is_key file_exists read_file
get_blob_bytes_verified-put_blob_bytes_example =
    get_blob_bytes_verified-put_blob_bytes ascii digest server client client key (codes "abc") []
      ascii-IsCodec client-IsClientOf client-IsClientOf refl refl (omega arith) refl refl

read_http_response-write_status_example :
    read_http_response ascii
      (write_status ascii 404 (codes "Not Found") (codes "not_found\n") (codes "text/plain"))
    ≡ ok (record { status = 404; body = codes "not_found\n" })
read_http_response-write_status_example =
    read_http_response-write_status ascii ascii-IsCodec 404 (codes "Not Found")
      (codes "not_found\n") (codes "text/plain") (omega arith) (omega arith) refl
      (all_ascii-IsAscii (codes "Not Found") refl)
      (word-IsValue (codes "text/plain") refl refl (all_ascii-IsAscii (codes "text/plain") refl))

handle_one-Takes_example :
    Step digest
      (view ascii (codes "/srv") [])
      (view ascii (codes "/srv") (handle_one ascii digest true server upload []).1)
handle_one-Takes_example = handle_one-Takes ascii digest server true upload [] ascii-IsCodec

none-IsStored : IsStored digest (view ascii (codes "/srv") [])
unfolding view read_file
none-IsStored k b h = ground (arith, h)

serve_all-IsStored_example : IsStored digest (
    view ascii
      (codes "/srv")
      (serve_all ascii digest server ((true, upload) ∷ (false, upload) ∷ []) []))
serve_all-IsStored_example =
    serve_all-IsStored ascii digest server ((true, upload) ∷ (false, upload) ∷ []) [] ascii-IsCodec
      none-IsStored

serve_all-Extends_example :
    Extends
      (view ascii (codes "/srv") [])
      (view ascii (codes "/srv") (serve_all ascii digest server ((true, upload) ∷ []) []))
serve_all-Extends_example =
    serve_all-Extends ascii digest server ((true, upload) ∷ []) [] ascii-IsCodec

upload_changes : ¬ ((handle_one ascii digest true server upload []).1 ≡ [])
unfolding handle_one upload write_http_request print_fields take_line after_line with_headers
    all_headers read_headers use_line note_header request_words dispatch writes_files auth_ok header
    route text_eq split_once trim to_ascii_lowercase split_whitespace parse_unsigned trim_end_by
    strip_prefix to_string trim_slashes serve_blob_or serve_blob handle_put_blob is_key file_exists
    read_file content_length
upload_changes e =
    let stored_blob : (handle_one ascii digest true server upload []).1
        ≡ (blob_path (codes "/srv") key, codes "abc") ∷ [] =
      refl in
    let nothing = sym stored_blob ∙ e in cc

handle_one_change_example :
    (server.read_only ≡ false)
    × ((hs : Headers) × (rest : Bytes) × (all_headers ascii (take_line upload).1 ≡ ok (hs, rest))
        × HasToken hs server.require_bearer)
handle_one_change_example = handle_one_change ascii digest server true upload [] upload_changes

get_action_manifest_sha256-put_action_mapping_example :
    let (put, gs) =
      put_action_mapping ascii digest (connect ascii digest true server) client key other [] in
    (put ≡ ok tt)
    × (get_action_manifest_sha256 ascii digest (connect ascii digest true server) client key gs
        ≡ (ok (some other), gs))
unfolding is_key as_text read_file
get_action_manifest_sha256-put_action_mapping_example =
    get_action_manifest_sha256-put_action_mapping ascii digest server client client key other []
      ascii-IsCodec client-IsClientOf client-IsClientOf refl refl refl refl

-- A server that answers with a blob, whatever is asked.
abbrev answers : Bytes → ℕ → Option Bytes × ℕ
answers bs n =
    (some (write_status ascii 200 (codes "OK") (codes "abc") (codes "text/plain")), suc n)
