-- ===== src/Remote/Server/Serve.antt =====
-- `handle_one` of redo_cache_server.rs: a request is read, and the handler for its path is called.
use redo.Base.{
  ℕ, Bool, not, ◌&&◌, ◌||◌, List, [], ◌∷◌, Text, codes, text_eq, Option, none, some, if◌then◌else◌,
  ◌==◌, ok, err, io, split_whitespace, strip_prefix, trim_end_by,
}
use redo.Remote.{Bytes, Utf8}
use redo.Remote.Http.{
  take_line, Headers, header, HeadersRead, all_headers, first_word, second_word, and_parse,
  number_or_zero,
}
use redo.Remote.Url.{is_slash}
use redo.Remote.Server.{Config, is_key, auth_ok, Files, Reply, write_text}
use redo.Remote.Server.Handlers.{
  not_found, bad_request, handle_post_exec, handle_get_blob, handle_put_blob, handle_get_action,
  handle_put_action,
}

-- The first line and the headers of a request.
pub record Request : Type 0 where
  pub method : Text
  pub path : Text
  pub headers : Headers

unfoldable pub trim_slashes : Text → Text
trim_slashes s = trim_end_by is_slash s

unfoldable pub content_length : Headers → ℕ
content_length hs = number_or_zero (and_parse (header (codes "content-length") hs))

unfoldable pub writes_files : Text → Bool
writes_files m = text_eq m (codes "PUT") || text_eq m (codes "POST")

abbrev pub is_line_end : ℕ → Bool
is_line_end c = c == 10 || c == 13

unfoldable pub request_words : Text → List Text
request_words line = split_whitespace (trim_end_by is_line_end line)

-- What a method does at a path that has a handler for GET and one for PUT.
abbrev pub by_method {ℓ} : {A : Type ℓ} → Text → A → A → A → A
by_method m get put other =
    if text_eq m (codes "GET") then get else if text_eq m (codes "PUT") then put else other

module _ (u : Utf8) where
  unfoldable pub not_allowed : Bytes
  not_allowed = write_text u 405 (codes "Method Not Allowed") (codes "method_not_allowed\n")

  unfoldable pub forbidden : Text → Bytes
  forbidden why = write_text u 403 (codes "Forbidden") why

  unfoldable pub serve_exec : Config → Request → Files → Reply
  serve_exec cfg q fs =
      if text_eq q.method (codes "POST")
      then handle_post_exec u cfg (content_length q.headers) fs
      else (ok not_allowed, fs)

  unfoldable pub serve_action : Bool → Config → Request → Bytes → Text → Files → Reply
  serve_action renamed cfg q rest key fs =
      if not (is_key key)
      then (ok (bad_request u (codes "invalid_actionkey\n")), fs)
      else by_method q.method (handle_get_action u cfg key fs)
          (handle_put_action u renamed cfg key (content_length q.headers) rest fs)
          (ok not_allowed, fs)

  unfoldable pub serve_action_or : Bool → Config → Request → Bytes → Files → Option Text → Reply
  serve_action_or renamed cfg q rest fs none = (ok (not_found u), fs)
  serve_action_or renamed cfg q rest fs (some key) =
      serve_action renamed cfg q rest (trim_slashes key) fs

module _ (u : Utf8) (sha256 : Bytes → Text) where
  unfoldable pub serve_blob : Bool → Config → Request → Bytes → Text → Files → Reply
  serve_blob renamed cfg q rest key fs =
      if not (is_key key)
      then (ok (bad_request u (codes "invalid_digest\n")), fs)
      else by_method q.method (handle_get_blob u cfg key fs)
          (handle_put_blob u sha256 renamed cfg key (content_length q.headers) rest fs)
          (ok (not_allowed u), fs)

  unfoldable pub serve_blob_or : Bool → Config → Request → Bytes → Files → Option Text → Reply
  serve_blob_or renamed cfg q rest fs none =
      serve_action_or u renamed cfg q rest fs (strip_prefix (codes "/v1/actions/") q.path)
  serve_blob_or renamed cfg q rest fs (some key) =
      serve_blob renamed cfg q rest (trim_slashes key) fs

  unfoldable pub route : Bool → Config → Request → Bytes → Files → Reply
  route renamed cfg q rest fs =
      if text_eq (trim_slashes q.path) (codes "/v1/exec")
      then serve_exec u cfg q fs
      else serve_blob_or renamed cfg q rest fs (strip_prefix (codes "/v1/blobs/") q.path)

  -- PUT and POST need a server that is not read-only, and the token.
  unfoldable pub dispatch : Bool → Config → Request → Bytes → Files → Reply
  dispatch renamed cfg q rest fs =
      if writes_files q.method && cfg.read_only
      then (ok (forbidden u (codes "read_only\n")), fs)
      else if writes_files q.method && not (auth_ok q.headers cfg.require_bearer)
      then (ok (forbidden u (codes "forbidden\n")), fs)
      else route renamed cfg q rest fs

  unfoldable pub with_headers : Bool → Config → Text → Files → HeadersRead → Reply
  with_headers renamed cfg line fs (err e) = (err e, fs)
  with_headers renamed cfg line fs (ok (hs, rest)) =
      let words = request_words line in
      dispatch renamed cfg
        (record { method = first_word [] words; path = second_word [] words; headers = hs }) rest fs

  unfoldable pub after_line : Bool → Config → Bytes → Files → Option Text → Reply
  after_line renamed cfg rest fs none = (err io, fs)
  after_line renamed cfg rest fs (some line) = with_headers renamed cfg line fs (all_headers u rest)

  unfoldable pub handle_one : Bool → Config → Bytes → Files → Reply
  handle_one renamed cfg [] fs = (ok [], fs)
  handle_one renamed cfg (b ∷ bs) fs =
      let (line, rest) = take_line (b ∷ bs) in after_line renamed cfg rest fs (u.decode line)
