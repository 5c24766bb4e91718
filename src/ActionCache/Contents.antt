-- ===== src/ActionCache/Contents.antt =====
-- The keys of actions for a remote cache, which hash what the dependencies hold.
use redo.Base.{ℕ, ◌%◌, [], ◌∷◌, ◌++◌, Text, codes, Option, none, some, Result, ok, err, io, ◌>>=◌}
use redo.Remote.{Bytes, Utf8}
use redo.Paths.Components.{join}
use redo.Store.Rows.{File}
use redo.ActionCache.Keys.{ActionKey, Eligibility, KeyDeps, le_bytes, hash_str, compute_key}

-- What a symbolic link leads to. `content` is the digest of the file in hexadecimal, or an error.
pub data Referent : Type 0 where
  ref_missing ref_dir ref_other : Referent
  ref_file : (content : Result Text) (mode : ℕ) → Referent

-- What the file system has at a path: `symlink_metadata`, `read_link` and `metadata`.
pub data Node : Type 0 where
  missing_node dir_node special_node : Node
  link_node : (target : Option Text) (referent : Result Referent) → Node
  file_node : (content : Result Text) (mode : ℕ) → Node

abbrev pub link_text : Option Text → Text
link_text none = codes "READLINK_FAILED"
link_text (some l) = l

module _ (u : Utf8) where
  -- A digest and the permission bits.
  abbrev pub content_bytes : Result Text → ℕ → Result Bytes
  content_bytes content mode = content >>= (λ d. ok (hash_str u d ++ le_bytes 8 (mode % 512)))

  abbrev pub tagged : Text → Result Bytes → Result Bytes
  tagged tag r = r >>= (λ bs. ok (hash_str u tag ++ bs))

  unfoldable pub describe_referent : Referent → Result Bytes
  describe_referent ref_missing = ok (hash_str u (codes "REF_MISSING"))
  describe_referent ref_dir = ok (hash_str u (codes "REF_DIR"))
  describe_referent ref_other = ok (hash_str u (codes "REF_OTHER"))
  describe_referent (ref_file content mode) = tagged (codes "REF_FILE") (content_bytes content mode)

  unfoldable pub describe_node : Node → Result Bytes
  describe_node missing_node = ok (hash_str u (codes "MISSING"))
  describe_node dir_node = ok (hash_str u (codes "DIR"))
  describe_node special_node = err io
  describe_node (link_node target referent) =
      tagged (codes "SYMLINK") (tagged (link_text target) (referent >>= describe_referent))
  describe_node (file_node content mode) = tagged (codes "FILE") (content_bytes content mode)

  unfoldable pub describe_v1 : (Text → Result Node) → Text → File → Result Bytes
  describe_v1 disk base dep = disk (join base dep.name) >>= describe_node

  -- `os` and `arch` are the constants of the platform.
  unfoldable pub compute_action_key_v1_remote :
      (Bytes → Text)
      → (tag os arch : Text) → (Text → Result Node)
      → (base target : Text) → KeyDeps
      → Result (Eligibility × ActionKey)
  compute_action_key_v1_remote digest tag os arch disk base target deps =
      compute_key u digest (describe_v1 disk base)
        (codes "redo-action-key-v1-remote" ∷ tag ∷ os ∷ arch ∷ target ∷ []) deps

  unfoldable pub compute_action_key_v1_remote_policy :
      (Bytes → Text)
      → (tag os arch : Text) → (Text → Result Node)
      → (base policy target : Text) → KeyDeps
      → Result (Eligibility × ActionKey)
  compute_action_key_v1_remote_policy digest tag os arch disk base policy target deps =
      compute_key u digest (describe_v1 disk base)
        (codes "redo-action-key-v1-remote"
          ∷ (codes "policy=" ++ policy)
          ∷ tag
          ∷ os
          ∷ arch
          ∷ target
          ∷ [])
        deps
