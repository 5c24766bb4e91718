-- ===== src/ActionCache/Meta/Laws.antt =====
-- What is stored in the action cache is found again.
use mathlib.Core.List.{foldl}
use redo.Base.{
  ℕ, ◌^◌, ◌<◌, ◌≡◌, ◌≢◌, refl, sym, ap, ◌∙◌, true, false, ◌&&◌, ◌||◌, List, [], ◌∷◌, ◌++◌, Text,
  codes, text_eq, text_eq_iff, text_eq_refl, is_empty, length, to_string, has_space-to_string,
  has_space, contains, contains-append, contains-to_string, split_on, split_on-append, strip_cr,
  lines, lines_of, trim_word, strip_prefix, parse_unsigned-to_string, some, ok, arith, Bool-cases,
  inl, inr,
}
use redo.Remote.{Bytes, Utf8}
use redo.Remote.Server.{Files, read_file, file_exists}
use redo.Paths.Components.{join, is_absolute, ends_in_slash}
use redo.Remote.Calls.{word-IsLine}
use redo.ActionCache.Gc.{ObjEntry, maybe_gc}
use redo.ActionCache.Meta.{
  bucket_dir, blob_path, meta_path, CachedMeta, print_meta, MetaFound, nothing_found, note_line,
  set_sha256, meta_of, read_meta, lookup, store, run_gc, remove_objects, written,
}

strip_cr_line : (s : Text) → contains s 13 ≡ false → strip_cr s ≡ s
unfolding strip_cr is_empty
strip_cr_line [] h = refl
strip_cr_line (c ∷ s) h = ground (arith, h, strip_cr_line s)

word_no_return : (w : Text) → has_space w ≡ false → contains w 13 ≡ false
word_no_return [] h = refl
word_no_return (c ∷ w) h = ground (arith, h, word_no_return w)

-- Three lines without line ends inside.
three_lines :
    (a b c : Text)
    → contains a 10 ≡ false
    → contains a 13 ≡ false
    → contains b 10 ≡ false
    → contains b 13 ≡ false
    → contains c 10 ≡ false
    → contains c 13 ≡ false
    → lines (a ++ (10 ∷ (b ++ (10 ∷ (c ++ (10 ∷ [])))))) ≡ a ∷ b ∷ c ∷ []
unfolding lines lines_of is_empty split_on
three_lines a b c ha ka hb kb hc kc =
    rw
      (
        split_on-append 10 a (b ++ (10 ∷ (c ++ (10 ∷ [])))) ha,
        split_on-append 10 b (c ++ (10 ∷ [])) hb,
        split_on-append 10 c [] hc,
        strip_cr_line a ka,
        strip_cr_line b kb,
        strip_cr_line c kc,
      )
      refl

note_mode :
    (f : MetaFound) (n : ℕ)
    → n < 2 ^ 32
    → note_line f (codes "mode=" ++ to_string n) ≡ record f { found_mode = some n }
unfolding note_line strip_prefix
note_mode f n h =
    rw (trim_word (to_string n) (has_space-to_string n), parse_unsigned-to_string (2 ^ 32) n h) refl

note_size :
    (f : MetaFound) (n : ℕ)
    → n < 2 ^ 64
    → note_line f (codes "size=" ++ to_string n) ≡ record f { found_size = some n }
unfolding note_line strip_prefix
note_size f n h =
    rw (trim_word (to_string n) (has_space-to_string n), parse_unsigned-to_string (2 ^ 64) n h) refl

filled : (f : MetaFound) (s : Text) → s ≢ [] → set_sha256 f s ≡ record f { found_sha256 = some s }
unfolding is_empty
filled f [] h = absurd (h refl)
filled f (c ∷ s) h = refl

note_sha256 :
    (f : MetaFound) (s : Text)
    → s ≢ []
    → has_space s ≡ false
    → note_line f (codes "sha256=" ++ s) ≡ record f { found_sha256 = some s }
unfolding note_line strip_prefix
note_sha256 f s n h = ap (set_sha256 f) (trim_word s h) ∙ filled f s n

number_line :
    (c n : ℕ) (s : Text) → (c < 48) → contains s c ≡ false → contains (s ++ to_string n) c ≡ false
number_line c n s hc hs = contains-append s (to_string n) c hs (contains-to_string c n (inl hc))

-- The metadata that is written is read again, if the mode is below 2 ^ 32, the size is below 2
-- ^ 64 and the digest is a word.
pub read_meta-print_meta :
    (m : CachedMeta)
    → m.mode < 2 ^ 32
    → m.size < 2 ^ 64
    → m.sha256 ≢ []
    → has_space m.sha256 ≡ false
    → read_meta (print_meta m) ≡ m
unfolding read_meta print_meta
read_meta-print_meta m hm hs hn hw =
    let mode_line = codes "mode=" ++ to_string m.mode in
    let size_line = codes "size=" ++ to_string m.size in
    let sha_line = codes "sha256=" ++ m.sha256 in
    let after_mode = record nothing_found { found_mode = some m.mode } in
    let after_size = record after_mode { found_size = some m.size } in
    ap (λ (ls : List Text). meta_of (foldl note_line nothing_found ls))
      (three_lines mode_line size_line sha_line
        (number_line 10 m.mode (codes "mode=") (omega arith) refl)
        (number_line 13 m.mode (codes "mode=") (omega arith) refl)
        (number_line 10 m.size (codes "size=") (omega arith) refl)
        (number_line 13 m.size (codes "size=") (omega arith) refl)
        (contains-append (codes "sha256=") m.sha256 10 refl (word-IsLine m.sha256 hw))
        (contains-append (codes "sha256=") m.sha256 13 refl (word_no_return m.sha256 hw)))
    ∙ ap (λ (f : MetaFound). meta_of (note_line (note_line f size_line) sha_line))
        (note_mode nothing_found m.mode hm)
    ∙ ap (λ (f : MetaFound). meta_of (note_line f sha_line)) (note_size after_mode m.size hs)
    ∙ ap meta_of (note_sha256 after_size m.sha256 hn hw)

last : Text → ℕ
last [] = 0
last (c ∷ []) = c
last (c ∷ d ∷ s) = last (d ∷ s)

last-append : (x w : Text) (c : ℕ) → last (x ++ (c ∷ w)) ≡ last (c ∷ w)
unfolding last
last-append [] w c = refl
last-append (a ∷ []) w c = refl
last-append (a ∷ b ∷ x) w c = last-append (b ∷ x) w c

last-join : (d w : Text) (c : ℕ) → last (join d (c ∷ w)) ≡ last (c ∷ w)
unfolding join last
last-join d w c = elim (Bool-cases (is_absolute (c ∷ w))) [
  | inl whole ↦ rw whole refl
  | inr part ↦ elim (Bool-cases (is_empty d || ends_in_slash d)) [
    | inl ends ↦ rw (part, ends) (last-append d w c)
    | inr shut ↦ rw (part, shut) (last-append d (c ∷ w) b'/')
  ]
]

last_entry : (d hex s : Text) (c : ℕ) → last (join d (hex ++ (c ∷ s))) ≡ last (c ∷ s)
last_entry d [] s c = last-join d s c
last_entry d (h ∷ hex) s c = last-join d (hex ++ (c ∷ s)) h ∙ last-append (h ∷ hex) s c

-- The two files of an entry are different.
blob_ne_meta : (base hex : Text) → ¬ (blob_path base hex ≡ meta_path base hex)
unfolding blob_path meta_path last
blob_ne_meta base hex e =
    let d = bucket_dir base hex in
    let ends : b'b' ≡ b'a' =
      sym (last_entry d hex (codes "blob") b'.')
      ∙ ap last e
      ∙ last_entry d hex (codes "meta") b'.' in
    omega (arith, ends)

read_first : (p : Text) (b : Bytes) (fs : Files) → read_file p ((p, b) ∷ fs) ≡ some b
unfolding read_file
read_first p b fs = rw (text_eq_refl p) refl

read_second :
    (p q : Text) (a b : Bytes) (fs : Files)
    → ¬ (p ≡ q)
    → read_file p ((q, a) ∷ (p, b) ∷ fs) ≡ some b
unfolding read_file
read_second p q a b fs n =
    let other : text_eq p q ≡ false = ground (arith, text_eq_iff p q, n) in
    rw (other, text_eq_refl p) refl

exists_read :
    (p : Text) (b : Bytes) (fs : Files) → read_file p fs ≡ some b → file_exists p fs ≡ true
unfolding file_exists
exists_read p b fs h = ground (arith, h)

lookup_found :
    (u : Utf8) (base hex s : Text) (a t : Bytes) (fs : Files)
    → is_empty hex ≡ false
    → read_file (blob_path base hex) fs ≡ some a
    → read_file (meta_path base hex) fs ≡ some t
    → u.decode t ≡ some s
    → lookup u base (record { hex = hex }) fs ≡ some (blob_path base hex, read_meta s)
unfolding lookup
lookup_found u base hex s a t fs nh ha ht hs =
    rw
      (
        nh,
        exists_read (blob_path base hex) a fs ha,
        exists_read (meta_path base hex) t fs ht,
        ht,
        hs,
      )
      refl

-- A file that is stored under a key that is not empty and has no entry is found by a lookup of
-- the key: with its content, its mode, its size and its digest. The mode is below 2 ^ 32, the
-- content has less than 2 ^ 64 bytes, the digest is a word, every text can be read back from
-- its bytes, and the collection that follows removes nothing.
pub lookup-store :
    (u : Utf8) (base : Text) (sha256 : Bytes → Text) (listed : Files → List ObjEntry) (maxb : ℕ)
    (hex : Text) (content : Bytes) (mode : ℕ) (fs : Files)
    → ((s : Text) → u.decode (u.encode s) ≡ some s)
    → is_empty hex ≡ false
    → file_exists (blob_path base hex) fs && file_exists (meta_path base hex) fs ≡ false
    → mode < 2 ^ 32
    → length content < 2 ^ 64
    → sha256 content ≢ []
    → has_space (sha256 content) ≡ false
    → (maybe_gc maxb (listed (written u base sha256 hex content mode fs))).1 ≡ []
    → let (stored, gs) =
        store u base sha256 listed maxb (record { hex = hex }) (some content) mode fs in
      (stored ≡ ok (length content))
      × (lookup u base (record { hex = hex }) gs
          ≡ some (
            blob_path base hex,
            record { mode = mode; size = length content; sha256 = sha256 content },
          ))
      × (read_file (blob_path base hex) gs ≡ some content)
unfolding store run_gc remove_objects written
lookup-store u base sha256 listed maxb hex content mode fs reads nh absent hm hc hn hw kept =
    let meta : CachedMeta = record {
      mode = mode;
      size = length content;
      sha256 = sha256 content;
    } in
    let bp = blob_path base hex in
    let mp = meta_path base hex in
    let text = u.encode (print_meta meta) in
    let blob : read_file bp (written u base sha256 hex content mode fs) ≡ some content =
      read_second bp mp text content fs (blob_ne_meta base hex) in
    let lines_of_meta : read_file mp (written u base sha256 hex content mode fs) ≡ some text =
      read_first mp text ((bp, content) ∷ fs) in
    rw (nh, absent, kept)
      (
        refl,
        lookup_found u base hex (print_meta meta) content text
              (written u base sha256 hex content mode fs) nh blob lines_of_meta
              (reads (print_meta meta))
            ∙ ap (λ (m : CachedMeta). some (bp, m)) (read_meta-print_meta meta hm hc hn hw),
        blob,
      )
