-- ===== src/Remote/Download.antt =====
-- `download_blob_to_file_verified` of redo_core/src/remote_cache.rs: what the client makes of the
-- response and of the file, which is none if it does not exist.
use redo.Base.{
  ℕ, zero, suc, ◌^◌, ◌-◌, ◌≡◌, ◌≢◌, Bool, true, false, not, ◌&&◌, [], ◌∷◌, ◌++◌, Text, codes,
  text_eq, Option, none, some, if◌then◌else◌, ◌==◌, ltb, length, take, ◌≤◌, Result, ok, err, Error,
  io, out_of_fuel, http_failed, digest_mismatch, split_once, trim, to_ascii_lowercase, after,
  parse_unsigned, ◌>>=◌,
}
use redo.Store.Rows.{is_some}
use redo.Remote.{Bytes, Utf8}
use redo.Remote.Http.{take_line, crlf, status_of}
use redo.Remote.Url.{RemoteConfig, join_url}
use redo.Remote.Client.{auth_headers}
use redo.Remote.Http.{write_http_request}

-- A read of the response, or a call on the file, that fails: before the file was opened, which makes it
-- empty, or behind it, when some bytes of the body were written.
pub data Fault : Type 0 where
  no_fault : Fault
  before_open : Fault
  behind : ℕ → Fault

-- `eq_ignore_ascii_case`
unfoldable pub same_name : Text → Text → Bool
same_name a b = text_eq (to_ascii_lowercase a) (to_ascii_lowercase b)

-- A header: it may give the length, and refuses a body in chunks.
unfoldable pub note_field : Option ℕ → Text → Text → Result (Option ℕ)
note_field clen k v =
    if same_name (trim k) (codes "transfer-encoding")
      && is_some (after (codes "chunked") (to_ascii_lowercase v))
    then err io
    else if same_name (trim k) (codes "content-length")
    then ok (parse_unsigned (2 ^ 64) (trim v))
    else ok clen

abbrev pub note_pair : Option ℕ → Option (Text × Text) → Result (Option ℕ)
note_pair clen none = ok clen
note_pair clen (some (k, v)) = note_field clen k v

module _ (u : Utf8) where
  abbrev pub Length : Type 0
  Length = Result (Option ℕ × Bytes)

  -- A line that is the end or a header; `more` goes on with the length so far.
  abbrev pub length_line : (Option ℕ → Length) → Option ℕ → Bytes → Text → Bool → Length
  length_line more clen rest line true = ok (clen, rest)
  length_line more clen rest line false = note_pair clen (split_once b':' line) >>= more

  unfoldable pub use_length_line : (Option ℕ → Length) → Option ℕ → Bytes → Option Text → Length
  use_length_line more clen rest none = err io
  use_length_line more clen rest (some line) = length_line more clen rest line (text_eq line crlf)

  unfoldable pub read_length : ℕ → Option ℕ → Bytes → Length
  read_length zero clen bs = err out_of_fuel
  read_length (suc n) clen [] = ok (clen, [])
  read_length (suc n) clen (b ∷ bs) =
      let (line, rest) = take_line (b ∷ bs) in
      use_length_line (λ c. read_length n c rest) clen rest (u.decode line)

  -- The bytes that are read: as many as the header says, or all.
  abbrev pub received : Option ℕ → Bytes → Bytes
  received none rest = rest
  received (some n) rest = take n rest

  -- A total of u64 that stops at its maximum.
  abbrev pub saturated : ℕ → ℕ
  saturated n = if ltb n (2 ^ 64) then n else 2 ^ 64 - 1

  module _ (sha256 : Bytes → Text) (hex : Text) where
    -- What is told, and the file behind.
    abbrev pub Downloaded : Type 0
    Downloaded = Result ℕ × Option Bytes

    unfoldable pub finish_download : Bytes → Downloaded
    finish_download body =
        if not (text_eq (sha256 body) hex)
        then (err digest_mismatch, none)
        else (ok (saturated (length body)), some body)

    -- The loop that fills the file, and what follows it.
    unfoldable pub fill_file : Option Bytes → Bytes → Fault → Downloaded
    unfolding finish_download
    fill_file dest body no_fault = finish_download body
    fill_file dest body before_open = (err io, dest)
    fill_file dest body (behind n) = (err io, some (take n body))

    unfoldable pub after_length : Option Bytes → Fault → Length → Downloaded
    unfolding fill_file
    after_length dest fault (err e) = (err e, dest)
    after_length dest fault (ok (clen, rest)) = fill_file dest (received clen rest) fault

    unfoldable pub after_status : Option Bytes → Fault → Bytes → Option Text → Downloaded
    after_status dest fault rest none = (err io, dest)
    after_status dest fault rest (some line) =
        if not (status_of line == 200)
        then (err (http_failed (status_of line)), dest)
        else after_length dest fault (read_length (suc (length rest)) none rest)

    unfoldable pub download_response : Option Bytes → Fault → Bytes → Downloaded
    download_response dest fault bs =
        let (line, rest) = take_line bs in after_status dest fault rest (u.decode line)

    abbrev pub download_reply : Option Bytes → Fault → Option Bytes → Downloaded
    download_reply dest fault none = (err io, dest)
    download_reply dest fault (some bs) = download_response dest fault bs

    unfoldable pub download_blob_to_file_verified :
        {S : Type 0}
        → (Bytes → S → Option Bytes × S)
        → RemoteConfig
        → Option Bytes
        → Fault
        → S
        → Downloaded × S
    download_blob_to_file_verified exchange cfg dest fault s =
        let (reply, t) =
          exchange
            (write_http_request u (codes "GET") cfg.url.host
              (join_url cfg.url (codes "v1/blobs/" ++ hex)) (auth_headers cfg) none)
            s in
        (download_reply dest fault reply, t)

    -- A download that succeeds leaves a file with the digest. One that fails leaves what was there, or
    -- nothing, or after a failure behind the opening of the file a first part of what was received.
    pub data IsVerified (dest : Option Bytes) : Fault → Downloaded → Type 0 where
      verified :
          (body : Bytes)
          → sha256 body ≡ hex
          → IsVerified dest no_fault (ok (saturated (length body)), some body)
      refused :
          (body : Bytes)
          → ¬ (sha256 body ≡ hex)
          → IsVerified dest no_fault (err digest_mismatch, none)
      failed : (fault : Fault) (e : Error) → e ≢ out_of_fuel → IsVerified dest fault (err e, dest)
      cut :
          (n : ℕ) (body part rest : Bytes)
          → body ≡ part ++ rest
          → length part ≤ n
          → IsVerified dest (behind n) (err io, some part)
