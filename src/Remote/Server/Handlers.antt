-- ===== src/Remote/Server/Handlers.antt =====
-- The handlers of redo_cache_server.rs. The answer of the rename is an argument: it succeeds or not.
-- The other calls on files are assumed to succeed.
use redo.Base.{
  ℕ, ◌*◌, Bool, not, ◌||◌, [], ◌∷◌, ◌++◌, Text, codes, text_eq, is_empty, Option, none, some,
  if◌then◌else◌, ltb, length, take, Result, ok, err, io, trim, lines, text_or,
}
use redo.Remote.{Bytes, Utf8}
use redo.Remote.Http.{write_status, first_word}
use redo.Remote.Client.{manifest_of, mapping_json}
use redo.Remote.Server.{
  Config, is_hex, is_key, blob_path, action_path, Files, read_file, file_exists, Reply, write_json,
  write_text,
}

-- The first half of an upload of a mapping: everything before the temporary file is made. On the
-- right is the mapping that is to be written.
pub data Checked : Type 0 where
  replied : Result Bytes → Checked
  to_write : Text → Checked

-- `s.lines().next().unwrap_or("").trim()`
unfoldable pub first_line : Text → Text
first_line s = trim (first_word [] (lines s))

module _ (u : Utf8) where
  unfoldable pub ok_reply : Bytes
  ok_reply = write_text u 200 (codes "OK") (codes "ok\n")

  unfoldable pub bad_request : Text → Bytes
  bad_request why = write_text u 400 (codes "Bad Request") why

  unfoldable pub not_found : Bytes
  not_found = write_text u 404 (codes "Not Found") (codes "not_found\n")

  unfoldable pub conflict : Bytes
  conflict = write_text u 409 (codes "Conflict") (codes "conflict\n")

  unfoldable pub too_large : Bytes
  too_large = write_text u 413 (codes "Payload Too Large") (codes "too_large\n")

  unfoldable pub exec_unavailable : Bytes
  exec_unavailable = write_text u 501 (codes "Not Implemented") (codes "exec_unavailable\n")

  -- The handler of a build for a system other than Linux.
  unfoldable pub handle_post_exec : Config → ℕ → Files → Reply
  handle_post_exec cfg clen fs =
      if not cfg.enable_exec
      then (ok not_found, fs)
      else if ltb (50 * 1024 * 1024) clen
      then (ok too_large, fs)
      else (ok exec_unavailable, fs)

  unfoldable pub blob_reply : Option Bytes → Bytes
  blob_reply none = not_found
  blob_reply (some b) = write_status u 200 (codes "OK") b (codes "application/octet-stream")

  unfoldable pub handle_get_blob : Config → Text → Files → Reply
  handle_get_blob cfg hex fs = (ok (blob_reply (read_file (blob_path cfg.root hex) fs)), fs)

  -- What is uploaded ends with the connection or at the length in the header.
  unfoldable pub handle_put_blob : (Bytes → Text) → Bool → Config → Text → ℕ → Bytes → Files → Reply
  handle_put_blob sha256 renamed cfg hex clen rest fs =
      if not (text_eq (sha256 (take clen rest)) hex)
      then (ok (bad_request (codes "digest_mismatch\n")), fs)
      else if file_exists (blob_path cfg.root hex) fs
      then (ok ok_reply, fs)
      else if renamed
      then (ok ok_reply, (blob_path cfg.root hex, take clen rest) ∷ fs)
      else (err io, fs)

  unfoldable pub mapping_reply : Text → Bytes
  mapping_reply man =
      if is_empty man || not (is_hex man)
      then write_text u 500 (codes "Internal Server Error") (codes "bad_mapping\n")
      else write_json u 200 (codes "OK") (mapping_json man)

  -- `fs::read_to_string`: a file that is not UTF-8 is an error too.
  unfoldable pub as_text : Option Bytes → Option Text
  as_text none = none
  as_text (some b) = u.decode b

  abbrev pub text_reply : Option Text → Result Bytes
  text_reply none = err io
  text_reply (some s) = ok (mapping_reply (first_line s))

  unfoldable pub action_reply : Option Bytes → Result Bytes
  action_reply none = ok not_found
  action_reply (some b) = text_reply (u.decode b)

  unfoldable pub handle_get_action : Config → Text → Files → Reply
  handle_get_action cfg key fs = (action_reply (read_file (action_path cfg.root key) fs), fs)

  unfoldable pub requested : Bytes → Text
  requested body = text_or [] (manifest_of (u.lossy body))

  unfoldable pub same_or_conflict : Text → Text → Bytes
  same_or_conflict man existing = if text_eq (first_line existing) man then ok_reply else conflict

  unfoldable pub against : Text → Option Text → Checked
  against man none = to_write man
  against man (some existing) = replied (ok (same_or_conflict man existing))

  unfoldable pub check_action : Config → Text → ℕ → Bytes → Files → Checked
  check_action cfg key clen rest fs =
      let man = requested (take clen rest) in
      if ltb (length rest) clen
      then replied (err io)
      else if not (is_key man)
      then replied (ok (bad_request (codes "invalid_manifest_sha256\n")))
      else against man (as_text (read_file (action_path cfg.root key) fs))

  -- The second half: the rename, which replaces a file that is there.
  unfoldable pub finish_action : Bool → Config → Text → Checked → Files → Reply
  finish_action renamed cfg key (replied r) fs = (r, fs)
  finish_action renamed cfg key (to_write man) fs =
      if renamed
      then (ok ok_reply, (action_path cfg.root key, u.encode (man ++ (10 ∷ []))) ∷ fs)
      else if file_exists (action_path cfg.root key) fs
      then (
        ok (same_or_conflict man (text_or [] (as_text (read_file (action_path cfg.root key) fs)))),
        fs,
      )
      else (err io, fs)

  unfoldable pub handle_put_action : Bool → Config → Text → ℕ → Bytes → Files → Reply
  handle_put_action renamed cfg key clen rest fs =
      finish_action renamed cfg key (check_action cfg key clen rest fs) fs
