-- ===== src/Remote/Server/Paths.antt =====
-- The paths of the server's files tell their keys apart.
use mathlib.Core.List.{append_assoc, append_cancel_left}
use redo.Base.{
  ℕ, ◌≡◌, refl, sym, ap, ◌∙◌, true, false, ◌||◌, [], ◌∷◌, ◌++◌, Text, codes, is_empty, arith,
  if◌then◌else◌, ◌==◌, drop,
}
use redo.Paths.Components.{is_absolute, ends_in_slash, join}
use redo.Remote.Server.{
  is_hex_digit, is_hex, IsKey, is_key, first_two, bucket_dir, blob_path, action_path,
}

-- A directory with the slash behind it.
abbrev slashed : Text → Text
slashed b = if is_empty b || ends_in_slash b then b else b ++ (b'/' ∷ [])

join_relative : (b r : Text) → is_absolute r ≡ false → join b r ≡ slashed b ++ r
unfolding join
join_relative b r h = ground (arith, h, append_assoc b (b'/' ∷ []) r)

ends_in_slash-append : (x w : Text) (c : ℕ) → ends_in_slash (x ++ (c ∷ w)) ≡ ends_in_slash (c ∷ w)
unfolding ends_in_slash
ends_in_slash-append [] w c = refl
ends_in_slash-append (a ∷ []) w c = refl
ends_in_slash-append (a ∷ b ∷ x) w c = ends_in_slash-append (b ∷ x) w c

is_empty-append : (x w : Text) (c : ℕ) → is_empty (x ++ (c ∷ w)) ≡ false
unfolding is_empty
is_empty-append [] w c = refl
is_empty-append (a ∷ x) w c = refl

-- An entry of a directory whose path does not end in a slash.
join-append :
    (x w r : Text) (c : ℕ)
    → ends_in_slash (c ∷ w) ≡ false
    → is_absolute r ≡ false
    → join (x ++ (c ∷ w)) r ≡ x ++ ((c ∷ w) ++ (b'/' ∷ r))
unfolding join
join-append x w r c h hr =
    rw (is_empty-append x w c, ends_in_slash-append x w c, h, hr)
      (append_assoc x (c ∷ w) (b'/' ∷ r))

-- Where a key of one kind is kept.
abbrev place : (root kind key : Text) → Text
place root kind key = join (bucket_dir root kind key) key

-- What stands behind the name of a directory.
abbrev behind : ℕ → ℕ → Text → Text
behind a b s = b'/' ∷ a ∷ b ∷ b'/' ∷ a ∷ b ∷ s

place_lem :
    (root w s : Text) (c a b : ℕ)
    → c == b'/' ≡ false
    → ends_in_slash (c ∷ w) ≡ false
    → a == b'/' ≡ false
    → b == b'/' ≡ false
    → place root (c ∷ w) (a ∷ b ∷ s) ≡ slashed root ++ ((c ∷ w) ++ (behind a b s))
unfolding bucket_dir first_two join is_absolute ends_in_slash
place_lem root w s c a b hc hw ha hb =
    let bucket =
      ap (λ (t : Text). join t (a ∷ b ∷ [])) (join_relative root (c ∷ w) hc)
      ∙ join-append (slashed root) w (a ∷ b ∷ []) c hw ha
      ∙ sym (append_assoc (slashed root) (c ∷ w) (b'/' ∷ a ∷ b ∷ [])) in
    ap (λ (t : Text). join t (a ∷ b ∷ s)) bucket
    ∙ join-append (slashed root ++ (c ∷ w)) (a ∷ b ∷ []) (a ∷ b ∷ s) b'/' (ground arith) ha
    ∙ append_assoc (slashed root) (c ∷ w) (behind a b s)

-- A key begins with two digits.
abbrev Two : Text → Type 0
Two k = (a : ℕ) × (b : ℕ) × (s : Text) × (k ≡ a ∷ b ∷ s) × (a == b'/' ≡ false) × (b == b'/' ≡ false)

not_slash : (c : ℕ) → is_hex_digit c ≡ true → c == b'/' ≡ false
not_slash c h = ground (arith, h)

IsKey-Two : (k : Text) → IsKey k → Two k
unfolding is_key is_hex is_empty
IsKey-Two [] h = absurd cc
IsKey-Two (a ∷ []) h = ground (arith, h)
IsKey-Two (a ∷ b ∷ s) h = (a, b, s, refl, ground (arith, h), ground (arith, h))

-- What is left of the key's directory and the key.
abbrev key_of : Text → Text
key_of s = drop 4 s

module _ (root : Text) where
  blob_path_lem :
      (s : Text) (a b : ℕ)
      → a == b'/' ≡ false
      → b == b'/' ≡ false
      → blob_path root (a ∷ b ∷ s) ≡ slashed root ++ (codes "blobs" ++ (behind a b s))
  unfolding blob_path bucket_dir ends_in_slash is_absolute
  blob_path_lem s a b ha hb = place_lem root (codes "lobs") s b'b' a b refl refl ha hb

  action_path_lem :
      (s : Text) (a b : ℕ)
      → a == b'/' ≡ false
      → b == b'/' ≡ false
      → action_path root (a ∷ b ∷ s) ≡ slashed root ++ (codes "actions" ++ (behind a b s))
  unfolding action_path bucket_dir ends_in_slash is_absolute
  action_path_lem s a b ha hb = place_lem root (codes "ctions") s b'a' a b refl refl ha hb

  pub blob_path_injective :
      (j k : Text) → IsKey j → IsKey k → blob_path root j ≡ blob_path root k → j ≡ k
  blob_path_injective j k hj hk e =
      let (a, b, s, ej, ha, hb) = IsKey-Two j hj in
      let (c, d, t, ek, hc, hd) = IsKey-Two k hk in
      let same =
        sym (blob_path_lem s a b ha hb)
        ∙ ap (blob_path root) (sym ej)
        ∙ e
        ∙ ap (blob_path root) ek
        ∙ blob_path_lem t c d hc hd in
      ej
      ∙ ap key_of (
          append_cancel_left (codes "blobs") (behind a b s) (behind c d t) (
            append_cancel_left (slashed root) (codes "blobs" ++ (behind a b s))
              (codes "blobs" ++ (behind c d t)) same))
      ∙ sym ek

  pub blob_path_ne_action_path :
      (j k : Text) → IsKey j → IsKey k → ¬ (blob_path root j ≡ action_path root k)
  blob_path_ne_action_path j k hj hk e =
      let (a, b, s, ej, ha, hb) = IsKey-Two j hj in
      let (c, d, t, ek, hc, hd) = IsKey-Two k hk in
      let same =
        sym (blob_path_lem s a b ha hb)
        ∙ ap (blob_path root) (sym ej)
        ∙ e
        ∙ ap (action_path root) ek
        ∙ action_path_lem t c d hc hd in
      let first =
        append_cancel_left (slashed root) (codes "blobs" ++ (behind a b s))
          (codes "actions" ++ (behind c d t)) same in
      cc

  pub action_path_injective :
      (j k : Text) → IsKey j → IsKey k → action_path root j ≡ action_path root k → j ≡ k
  action_path_injective j k hj hk e =
      let (a, b, s, ej, ha, hb) = IsKey-Two j hj in
      let (c, d, t, ek, hc, hd) = IsKey-Two k hk in
      let same =
        sym (action_path_lem s a b ha hb)
        ∙ ap (action_path root) (sym ej)
        ∙ e
        ∙ ap (action_path root) ek
        ∙ action_path_lem t c d hc hd in
      ej
      ∙ ap key_of (
          append_cancel_left (codes "actions") (behind a b s) (behind c d t) (
            append_cancel_left (slashed root) (codes "actions" ++ (behind a b s))
              (codes "actions" ++ (behind c d t)) same))
      ∙ sym ek
