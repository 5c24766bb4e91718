-- ===== src/ActionCache/Keys.antt =====
-- The keys of actions. What is fed to SHA-256 is one list of bytes, since updates append; `digest`
-- gives the digest in hexadecimal.
use redo.Base.{
  ℕ, zero, suc, ◌/◌, ◌%◌, Bool, ◌&&◌, ◌||◌, List, [], ◌∷◌, ◌++◌, Text, codes, text_eq, Option, none,
  some, if◌then◌else◌, ◌==◌, ltb, length, take, Result, ok, ◌>>=◌, text_leb,
}
use redo.Remote.{Bytes, Utf8}
use redo.Store.Rows.{File, always}
use redo.Store.Files.{World, stamp_now}

pub record ActionKey : Type 0 where
  pub hex : Text

unfoldable pub prefix : ActionKey → Text
prefix key = take 12 key.hex

pub data Eligibility : Type 0 where
  eligible skip_always : Eligibility

-- The dependencies with their modes.
abbrev pub KeyDeps : Type 0
KeyDeps = List (ℕ × File)

-- `(ma, &fa.name) <= (mb, &fb.name)`
unfoldable pub dep_leb : ℕ × File → ℕ × File → Bool
unfolding text_leb
dep_leb (m, f) (n, g) = ltb m n || m == n && text_leb f.name g.name

-- A stable sort.
unfoldable pub insert_dep : ℕ × File → KeyDeps → KeyDeps
insert_dep d [] = d ∷ []
insert_dep d (e ∷ es) = let rest = insert_dep d es in if dep_leb d e then d ∷ e ∷ es else e ∷ rest

unfoldable pub sort_deps : KeyDeps → KeyDeps
sort_deps [] = []
sort_deps (d ∷ ds) = insert_dep d (sort_deps ds)

-- `to_le_bytes`, of so many bytes.
unfoldable pub le_bytes : ℕ → ℕ → Bytes
le_bytes zero n = []
le_bytes (suc k) n = n % 256 ∷ le_bytes k (n / 256)

abbrev pub after_entry : Bytes → Option Bytes → Option Bytes
after_entry e none = none
after_entry e (some bs) = some (e ++ bs)

abbrev pub finish_key : (Bytes → Text) → Option Bytes → Eligibility × ActionKey
finish_key digest none = (skip_always, record { hex = [] })
finish_key digest (some bs) = (eligible, record { hex = digest bs })

module _ (u : Utf8) where
  unfoldable pub hash_str : Text → Bytes
  hash_str s = le_bytes 8 (length (u.encode s)) ++ u.encode s

  -- What follows a dependency that is not ALWAYS.
  abbrev pub entry : ℕ → File → Bytes → Bytes
  entry mode dep state = (mode % 256) ∷ (hash_str dep.name ++ state)

  -- The loop over the dependencies; none is SkipAlways. `describe` gives what is fed of the state of
  -- a dependency.
  unfoldable pub feed : (File → Result Bytes) → KeyDeps → Result (Option Bytes)
  feed describe [] = ok (some [])
  feed describe ((mode, dep) ∷ ds) =
      let rest = feed describe ds in
      if text_eq dep.name always
      then ok none
      else describe dep >>= (λ state. rest >>= (λ bs. ok (after_entry (entry mode dep state) bs)))

  unfoldable pub feed_texts : List Text → Bytes
  feed_texts [] = []
  feed_texts (s ∷ ss) = hash_str s ++ feed_texts ss

  -- Everything that is hashed.
  unfoldable pub key_stream : (File → Result Bytes) → List Text → KeyDeps → Result (Option Bytes)
  key_stream describe heads deps =
      feed describe (sort_deps deps)
      >>= (λ bs. ok (after_entry (feed_texts heads ++ le_bytes 8 (length deps)) bs))

  unfoldable pub compute_key :
      (Bytes → Text)
      → (File → Result Bytes)
      → List Text
      → KeyDeps
      → Result (Eligibility × ActionKey)
  compute_key digest describe heads deps =
      key_stream describe heads deps >>= (λ bs. ok (finish_key digest bs))

  -- The state of a dependency is its stamp.
  unfoldable pub describe_v0 : World → File → Result Bytes
  describe_v0 w dep = ok (hash_str (stamp_now w dep))

  unfoldable pub compute_action_key_v0 :
      (Bytes → Text) → Text → World → Text → KeyDeps → Result (Eligibility × ActionKey)
  compute_action_key_v0 digest tag w target deps =
      compute_key digest (describe_v0 w) (codes "redo-action-key-v0" ∷ tag ∷ target ∷ []) deps

  unfoldable pub compute_action_key_v0_policy :
      (Bytes → Text) → Text → World → Text → Text → KeyDeps → Result (Eligibility × ActionKey)
  compute_action_key_v0_policy digest tag w policy target deps =
      compute_key digest (describe_v0 w)
        (codes "redo-action-key-v0" ∷ (codes "policy=" ++ policy) ∷ tag ∷ target ∷ []) deps
