-- ===== src/ActionCache/Always.antt =====
-- An action that depends on //ALWAYS has no key.
use redo.Base.{
  ◌≡◌, refl, sym, ◌∙◌, true, false, List, [], ◌∷◌, ◌++◌, Text, text_eq, Option, none, some, ◌⊎◌,
  length, Result, ok, Bool-cases, inl, inr,
}
use redo.Remote.{Bytes, Utf8}
use redo.Store.Rows.{File, always}
use redo.Store.Files.{World, stamp_now}
use redo.ActionCache.Keys.{
  ActionKey, Eligibility, eligible, skip_always, KeyDeps, le_bytes, hash_str, entry, feed,
  feed_texts, key_stream, sort_deps, compute_key, describe_v0, compute_action_key_v0,
}
use redo.ActionCache.Injective.{has_always, has_always-sort_deps, heads_v0}

abbrev pub no_key : Eligibility × ActionKey
no_key = (skip_always, record { hex = [] })

described_v0 : (u : Utf8) (w : World) (f : File) → (s : Bytes) × (describe_v0 u w f ≡ ok s)
unfolding describe_v0
described_v0 u w f = (hash_str u (stamp_now w f), refl)

module _ (u : Utf8) (describe : File → Result Bytes)
    (told : (f : File) → (s : Bytes) × (describe f ≡ ok s)) where
  -- The loop skips everything or hashes everything.
  Outcome : KeyDeps → Result (Option Bytes) → Type 0
  Outcome ds r =
      ((has_always ds ≡ true) × (r ≡ ok none))
      ⊎ ((has_always ds ≡ false) × ((bs : Bytes) × (r ≡ ok (some bs))))

  feed-Outcome : (ds : KeyDeps) → Outcome ds (feed u describe ds)
  unfolding feed Outcome
  feed-Outcome [] = inr (refl, ([], refl))
  feed-Outcome (d ∷ ds) = elim (Bool-cases (text_eq d.1.name always)) [
    | inl skip ↦ rw skip (inl (refl, refl))
    | inr more ↦
        let (s, e) = told d.1 in
        elim (feed-Outcome ds) [
          | inl (there, none_left) ↦ inl (rw more there, rw (more, e, none_left) refl)
          | inr (absent, (bs, rest)) ↦
              inr (rw more absent, (entry u d.0 d.1 s ++ bs, rw (more, e, rest) refl))
        ]
  ]

  compute_key_always :
      (digest : Bytes → Text) (heads : List Text) (ds : KeyDeps)
      → ((has_always ds ≡ true) × (compute_key u digest describe heads ds ≡ ok no_key))
        ⊎ ((has_always ds ≡ false)
            × ((bs : Bytes) × (key_stream u describe heads ds ≡ ok (some bs))
                × (compute_key u digest describe heads ds
                    ≡ ok (eligible, record { hex = digest bs }))))
  unfolding compute_key key_stream Outcome
  compute_key_always digest heads ds = elim (feed-Outcome (sort_deps ds)) [
    | inl (there, skipped) ↦ inl (sym (has_always-sort_deps ds) ∙ there, rw skipped refl)
    | inr (absent, (bs, fed)) ↦ inr (
      sym (has_always-sort_deps ds) ∙ absent,
      ((feed_texts u heads ++ le_bytes 8 (length ds)) ++ bs, rw fed refl, rw fed refl),
    )
  ]

-- An action has no key exactly if it depends on //ALWAYS; otherwise its key is the digest of
-- everything that is hashed.
pub compute_action_key_v0_always :
    (u : Utf8) (digest : Bytes → Text) (tag : Text) (w : World) (target : Text) (ds : KeyDeps)
    → ((has_always ds ≡ true) × (compute_action_key_v0 u digest tag w target ds ≡ ok no_key))
      ⊎ ((has_always ds ≡ false)
          × ((bs : Bytes) × (key_stream u (describe_v0 u w) (heads_v0 tag target) ds ≡ ok (some bs))
              × (compute_action_key_v0 u digest tag w target ds
                  ≡ ok (eligible, record { hex = digest bs }))))
unfolding compute_action_key_v0
compute_action_key_v0_always u digest tag w target ds =
    compute_key_always u (describe_v0 u w) (described_v0 u w) digest (heads_v0 tag target) ds
