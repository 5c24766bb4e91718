-- ===== src/ActionCache/Injective.antt =====
-- Two actions with the same stream have the same dependencies.
use mathlib.Core.List.{append_assoc}
use redo.Base.{
  ℕ, suc, ◌%◌, ◌^◌, ◌<◌, ◌≡◌, refl, sym, ap, ◌∙◌, Bool, true, false, List, [], ◌∷◌, ◌++◌, All, Text,
  codes, text_eq, Option, none, some, arith, ◌||◌, if◌then◌else◌, length, Result, ok, err, ◌>>=◌,
  Bool-cases, inl, inr,
}
use redo.Remote.{Bytes, Utf8}
use redo.Store.Rows.{File, always}
use redo.Store.Files.{World, stamp_now}
use redo.ActionCache.Keys.{
  KeyDeps, le_bytes, hash_str, entry, after_entry, feed, feed_texts, key_stream, insert_dep,
  sort_deps, dep_leb, describe_v0,
}
use redo.ActionCache.Streams.{
  number_cancel, IsReadBack, IsShort, hash_str_cancel, feed_texts_cancel,
}

abbrev tail_of : Bytes → Bytes
tail_of [] = []
tail_of (b ∷ bs) = bs

length-insert_dep : (d : ℕ × File) (ds : KeyDeps) → length (insert_dep d ds) ≡ suc (length ds)
unfolding insert_dep
length-insert_dep d [] = refl
length-insert_dep d (e ∷ es) = ground (arith, length-insert_dep d es)

length-sort_deps : (ds : KeyDeps) → length (sort_deps ds) ≡ length ds
unfolding sort_deps
length-sort_deps [] = refl
length-sort_deps (d ∷ ds) = length-insert_dep d (sort_deps ds) ∙ ap suc (length-sort_deps ds)

-- What a turn of the loop that hashes everything has hashed.
record Fed (answer : Result Bytes) (more : Result (Option Bytes)) (put : Bytes → Bytes) (bs : Bytes)
    : Type 0 where
  pub state : Bytes
  pub rest : Bytes
  pub described : answer ≡ ok state
  pub fed : more ≡ ok (some rest)
  pub whole : bs ≡ put state ++ rest

abbrev turn : Bool → Result Bytes → Result (Option Bytes) → (Bytes → Bytes) → Result (Option Bytes)
turn t r q put =
    if t then ok none else r >>= (λ state. q >>= (λ bs. ok (after_entry (put state) bs)))

turn_inverse :
    (t : Bool) (r : Result Bytes) (q : Result (Option Bytes)) (put : Bytes → Bytes) (bs : Bytes)
    → turn t r q put ≡ ok (some bs)
    → Fed r q put bs
turn_inverse true r q put bs h = absurd cc
turn_inverse false (err e) q put bs h = absurd cc
turn_inverse false (ok state) (err e) put bs h = absurd cc
turn_inverse false (ok state) (ok none) put bs h = absurd cc
turn_inverse false (ok state) (ok (some rest)) put bs h = record {
  state = state;
  rest = rest;
  described = refl;
  fed = refl;
  whole = cc;
}

start_inverse :
    (q : Result (Option Bytes)) (start bs : Bytes)
    → (q >>= (λ rest. ok (after_entry start rest))) ≡ ok (some bs)
    → (rest : Bytes) × (q ≡ ok (some rest)) × (bs ≡ start ++ rest)
start_inverse (err e) start bs h = absurd cc
start_inverse (ok none) start bs h = absurd cc
start_inverse (ok (some rest)) start bs h = (rest, refl, cc)

abbrev pub HaveShortNames : Utf8 → KeyDeps → Type 0
HaveShortNames u [] = Unit
HaveShortNames u (d ∷ ds) = IsShort u d.1.name × HaveShortNames u ds

insert_dep-HaveShortNames :
    (u : Utf8) (d : ℕ × File) (ds : KeyDeps)
    → IsShort u d.1.name
    → HaveShortNames u ds
    → HaveShortNames u (insert_dep d ds)
unfolding insert_dep
insert_dep-HaveShortNames u d [] h hs = (h, hs)
insert_dep-HaveShortNames u d (e ∷ es) h hs = elim (Bool-cases (dep_leb d e)) [
  | inl first ↦ rw first (h, hs)
  | inr later ↦ rw later (hs.0, insert_dep-HaveShortNames u d es h hs.1)
]

sort_deps-HaveShortNames :
    (u : Utf8) (ds : KeyDeps) → HaveShortNames u ds → HaveShortNames u (sort_deps ds)
unfolding sort_deps
sort_deps-HaveShortNames u [] h = h
sort_deps-HaveShortNames u (d ∷ ds) h =
    insert_dep-HaveShortNames u d (sort_deps ds) h.0 (sort_deps-HaveShortNames u ds h.1)

module _ (u : Utf8) (describe : File → Result Bytes) where
  feed_inverse :
      (d : ℕ × File) (ds : KeyDeps) (bs : Bytes)
      → feed u describe (d ∷ ds) ≡ ok (some bs)
      → Fed (describe d.1) (feed u describe ds) (entry u d.0 d.1) bs
  unfolding feed
  feed_inverse d ds bs h =
      turn_inverse (text_eq d.1.name always) (describe d.1) (feed u describe ds) (entry u d.0 d.1)
        bs h

  -- What was hashed of an action.
  abbrev head_bytes : List Text → KeyDeps → Bytes
  head_bytes heads ds = feed_texts u heads ++ le_bytes 8 (length ds)

  record Hashed (heads : List Text) (ds : KeyDeps) (bs : Bytes) : Type 0 where
    pub rest : Bytes
    pub fed : feed u describe (sort_deps ds) ≡ ok (some rest)
    pub whole : bs ≡ head_bytes heads ds ++ rest

  key_stream_inverse :
      (heads : List Text) (ds : KeyDeps) (bs : Bytes)
      → key_stream u describe heads ds ≡ ok (some bs)
      → Hashed heads ds bs
  unfolding key_stream
  key_stream_inverse heads ds bs h =
      let (rest, fed, whole) =
        start_inverse (feed u describe (sort_deps ds)) (head_bytes heads ds) bs h in
      record { rest = rest; fed = fed; whole = whole }

module _ (u : Utf8) (describe other : File → Result Bytes) where
  -- The same modes, names and states, one after the other.
  abbrev pub Agree : KeyDeps → KeyDeps → Type 0
  Agree [] [] = Unit
  Agree [] (e ∷ es) = ⊥
  Agree (d ∷ ds) [] = ⊥
  Agree (d ∷ ds) (e ∷ es) =
      (d.0 % 256 ≡ e.0 % 256) × (d.1.name ≡ e.1.name) × (describe d.1 ≡ other e.1) × Agree ds es

  -- No description is the beginning of another one.
  abbrev pub IsPrefixFree : Type 0
  IsPrefixFree =
      (f g : File) (a b x y : Bytes)
      → describe f ≡ ok a
      → other g ≡ ok b
      → a ++ x ≡ b ++ y
      → (a ≡ b) × (x ≡ y)

  entry_cancel :
      (d e : ℕ × File) (a b x y : Bytes)
      → IsReadBack u
      → IsPrefixFree
      → IsShort u d.1.name
      → IsShort u e.1.name
      → describe d.1 ≡ ok a
      → other e.1 ≡ ok b
      → entry u d.0 d.1 a ++ x ≡ entry u e.0 e.1 b ++ y
      → (d.0 % 256 ≡ e.0 % 256) × (d.1.name ≡ e.1.name) × (describe d.1 ≡ other e.1) × (x ≡ y)
  entry_cancel d e a b x y reads free hd he da db h =
      let parted =
        sym (append_assoc (hash_str u d.1.name) a x)
        ∙ ap tail_of h
        ∙ append_assoc (hash_str u e.1.name) b y in
      let (names, behind) =
        hash_str_cancel u d.1.name e.1.name (a ++ x) (b ++ y) reads hd he parted in
      let (states, rest) = free d.1 e.1 a b x y da db behind in
      (cc, names, da ∙ ap ok states ∙ sym db, rest)

  feed_cancel :
      (ds es : KeyDeps) (bs : Bytes)
      → IsReadBack u
      → IsPrefixFree
      → HaveShortNames u ds
      → HaveShortNames u es
      → length ds ≡ length es
      → feed u describe ds ≡ ok (some bs)
      → feed u other es ≡ ok (some bs)
      → Agree ds es
  feed_cancel [] [] bs reads free hd he n h k = tt
  feed_cancel [] (e ∷ es) bs reads free hd he n h k = ground arith
  feed_cancel (d ∷ ds) [] bs reads free hd he n h k = ground arith
  feed_cancel (d ∷ ds) (e ∷ es) bs reads free hd he n h k =
      let p = feed_inverse u describe d ds bs h in
      let q = feed_inverse u other e es bs k in
      let (modes, names, states, rest) =
        entry_cancel d e p.state q.state p.rest q.rest reads free hd.0 he.0 p.described q.described
          (sym p.whole ∙ q.whole) in
      (
        modes,
        names,
        states,
        feed_cancel ds es p.rest reads free hd.1 he.1 (omega (arith, n)) p.fed
            (q.fed ∙ ap (λ r. ok (some r)) (sym rest)),
      )

  -- The same stream comes from the same texts and the same sorted dependencies.
  key_stream_cancel :
      (heads texts : List Text) (ds es : KeyDeps) (bs : Bytes)
      → IsReadBack u
      → IsPrefixFree
      → length heads ≡ length texts
      → All (IsShort u) heads
      → All (IsShort u) texts
      → HaveShortNames u ds
      → HaveShortNames u es
      → length ds < 2 ^ 64
      → length es < 2 ^ 64
      → key_stream u describe heads ds ≡ ok (some bs)
      → key_stream u other texts es ≡ ok (some bs)
      → (heads ≡ texts) × Agree (sort_deps ds) (sort_deps es)
  key_stream_cancel heads texts ds es bs reads free n hh ht hd he nd ne h k =
      let p = key_stream_inverse u describe heads ds bs h in
      let q = key_stream_inverse u other texts es bs k in
      let parted =
        sym (append_assoc (feed_texts u heads) (le_bytes 8 (length ds)) p.rest)
        ∙ sym p.whole
        ∙ q.whole
        ∙ append_assoc (feed_texts u texts) (le_bytes 8 (length es)) q.rest in
      let (same, behind) =
        feed_texts_cancel u heads texts (le_bytes 8 (length ds) ++ p.rest)
          (le_bytes 8 (length es) ++ q.rest) reads n hh ht parted in
      let (lengths, rest) = number_cancel (length ds) (length es) p.rest q.rest nd ne behind in
      (
        same,
        feed_cancel (sort_deps ds) (sort_deps es) p.rest reads free
            (sort_deps-HaveShortNames u ds hd) (sort_deps-HaveShortNames u es he)
            (length-sort_deps ds ∙ lengths ∙ sym (length-sort_deps es)) p.fed
            (q.fed ∙ ap (λ r. ok (some r)) (sym rest)),
      )

-- The stamps that are hashed can be told apart.
describe_v0_cancel :
    (u : Utf8) (w v : World)
    → IsReadBack u
    → ((f : File) → IsShort u (stamp_now w f))
    → ((f : File) → IsShort u (stamp_now v f))
    → IsPrefixFree u (describe_v0 u w) (describe_v0 u v)
unfolding describe_v0
describe_v0_cancel u w v reads hw hv f g a b x y ha hb e =
    let left : hash_str u (stamp_now w f) ≡ a = cc in
    let right : hash_str u (stamp_now v g) ≡ b = cc in
    let joined = ap (λ (t : Bytes). t ++ x) left ∙ e ∙ ap (λ (t : Bytes). t ++ y) (sym right) in
    let (stamps, rest) =
      hash_str_cancel u (stamp_now w f) (stamp_now v g) x y reads (hw f) (hv g) joined in
    (sym left ∙ ap (hash_str u) stamps ∙ right, rest)

abbrev pub heads_v0 : Text → Text → List Text
heads_v0 tag target = codes "redo-action-key-v0" ∷ tag ∷ target ∷ []

-- If the same bytes are hashed for the keys of two actions, both are of the same target, and
-- their dependencies, in the order of the keys, have the same modes up to 256, the same names
-- and the same hashed stamps, even if the files were looked at in different states of the
-- disk. Every text can be read back from its bytes; all texts have less than 2 ^ 64 bytes, and
-- both actions fewer dependencies.
pub key_stream_v0_injective :
    (u : Utf8) (w v : World) (tag target other : Text) (ds es : KeyDeps) (bs : Bytes)
    → IsReadBack u
    → All (IsShort u) (heads_v0 tag target)
    → All (IsShort u) (heads_v0 tag other)
    → ((f : File) → IsShort u (stamp_now w f))
    → ((f : File) → IsShort u (stamp_now v f))
    → HaveShortNames u ds
    → HaveShortNames u es
    → length ds < 2 ^ 64
    → length es < 2 ^ 64
    → key_stream u (describe_v0 u w) (heads_v0 tag target) ds ≡ ok (some bs)
    → key_stream u (describe_v0 u v) (heads_v0 tag other) es ≡ ok (some bs)
    → (target ≡ other) × Agree u (describe_v0 u w) (describe_v0 u v) (sort_deps ds) (sort_deps es)
key_stream_v0_injective u w v tag target other ds es bs reads ht ho hw hv hd he nd ne h k =
    let (heads, deps) =
      key_stream_cancel u (describe_v0 u w) (describe_v0 u v) (heads_v0 tag target)
        (heads_v0 tag other) ds es bs reads (describe_v0_cancel u w v reads hw hv) refl ht ho hd he
        nd ne h k in
    (cc, deps)

abbrev pub has_always : KeyDeps → Bool
has_always [] = false
has_always (d ∷ ds) = text_eq d.1.name always || has_always ds

has_always-insert_dep :
    (d : ℕ × File) (ds : KeyDeps)
    → has_always (insert_dep d ds) ≡ (text_eq d.1.name always || has_always ds)
unfolding insert_dep
has_always-insert_dep d [] = refl
has_always-insert_dep d (e ∷ es) = ground (arith, has_always-insert_dep d es)

pub has_always-sort_deps : (ds : KeyDeps) → has_always (sort_deps ds) ≡ has_always ds
unfolding sort_deps
has_always-sort_deps [] = refl
has_always-sort_deps (d ∷ ds) =
    has_always-insert_dep d (sort_deps ds)
    ∙ ap (λ (b : Bool). text_eq d.1.name always || b) (has_always-sort_deps ds)
