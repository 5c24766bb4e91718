-- ===== src/Remote/Server.antt =====
-- The server bins/src/redo_cache_server.rs: its configuration, the paths of its files and its
-- replies. A temporary file that is renamed to its place is one write to that place.
pub mod Paths
pub mod Handlers
pub mod Serve
pub mod Spec
pub mod Views
pub mod Refines
pub mod Routes
pub mod Requests
pub mod Lines
pub mod Dispatch
use redo.Base.{
  ◌≡◌, ℕ, ◌+◌, Bool, true, false, not, ◌&&◌, ◌||◌, List, [], ◌∷◌, ◌++◌, Text, codes, text_eq,
  is_empty, Option, none, some, if◌then◌else◌, ◌==◌, ltb, leb, length, take, Result, ok, err, trim,
  text_or,
}
use redo.Remote.{Bytes, Utf8}
use redo.Remote.Http.{Headers, header, write_status}
use redo.Paths.Components.{
  Component, root_dir, cur_dir, parent_dir, normal, components, is_absolute, join,
}

pub record Config : Type 0 where
  pub root : Text
  pub read_only : Bool
  pub require_bearer : Option Text
  pub enable_exec : Bool

unfoldable pub parse_listen : Text → Text
unfolding trim
parse_listen s = elim (trim s) [
  | [] ↦ codes "127.0.0.1:0"
  | c ∷ r ↦ if c == b':' then codes "127.0.0.1" ++ (c ∷ r) else c ∷ r
]

abbrev pub is_hex_digit : ℕ → Bool
is_hex_digit c = leb 48 c && leb c 57 || leb 65 c && leb c 70 || leb 97 c && leb c 102

abbrev pub all_hex : Text → Bool
all_hex [] = true
all_hex (c ∷ s) = is_hex_digit c && all_hex s

unfoldable pub is_hex : Text → Bool
unfolding is_empty
is_hex s = not (is_empty s) && all_hex s

-- The key of a request must be the 64 digits of a digest.
unfoldable pub is_key : Text → Bool
unfolding is_hex
is_key k = length k == 64 && is_hex k

abbrev pub IsKey : Text → Type 0
IsKey k = is_key k ≡ true

-- The slice `key.get(0..2)` of a key, whose characters are single bytes.
unfoldable pub first_two : Text → Text
first_two (a ∷ b ∷ s) = a ∷ b ∷ []
first_two s = codes "00"

unfoldable pub bucket_dir : Text → Text → Text → Text
bucket_dir root kind key = join (join root kind) (first_two key)

unfoldable pub blob_path : Text → Text → Text
blob_path root hex = join (bucket_dir root (codes "blobs") hex) hex

unfoldable pub action_path : Text → Text → Text
action_path root key = join (bucket_dir root (codes "actions") key) key

-- No component leads out of the directory.
abbrev pub all_stay : List Component → Bool
all_stay [] = true
all_stay (cur_dir ∷ cs) = all_stay cs
all_stay (normal w ∷ cs) = all_stay cs
all_stay (parent_dir ∷ cs) = false
all_stay (root_dir ∷ cs) = false

unfoldable pub safe_rel_path : Text → Bool
unfolding is_absolute components
safe_rel_path p = not (is_absolute p) && all_stay (components p)

unfoldable pub auth_ok : Headers → Option Text → Bool
auth_ok hs none = true
auth_ok hs (some tok) =
    text_eq
      (text_or []
        (elim (header (codes "authorization") hs) [ none ↦ none | some v ↦ some (trim v) ]))
      (codes "Bearer " ++ tok)

-- The files under the root, newest first. A path that is not there is `NotFound`.
abbrev pub Files : Type 0
Files = List (Text × Bytes)

unfoldable pub read_file : Text → Files → Option Bytes
unfolding text_eq
read_file p [] = none
read_file p ((q, b) ∷ fs) = let rest = read_file p fs in if text_eq p q then some b else rest

unfoldable pub file_exists : Text → Files → Bool
file_exists p fs = elim (read_file p fs) [ none ↦ false | some b ↦ true ]

-- What is sent, or the error at which the connection is closed, and the files.
abbrev pub Reply : Type 0
Reply = Result Bytes × Files

unfoldable pub write_json : Utf8 → ℕ → Text → Text → Bytes
write_json u code reason body =
    write_status u code reason (u.encode body) (codes "application/json")

unfoldable pub write_text : Utf8 → ℕ → Text → Text → Bytes
write_text u code reason body = write_status u code reason (u.encode body) (codes "text/plain")
