-- ===== src/Remote/Server/Views.antt =====
-- What the files of the server mean as a cache of Server/Spec, and what a write makes of it.
use redo.Base.{
  ◌≡◌, refl, sym, ap, ◌∙◌, Bool, true, false, ◌∷◌, Text, text_eq, text_eq_iff, Option, none, some,
  if◌then◌else◌, arith, inl, inr, Bool-cases,
}
use redo.Remote.{Bytes, Utf8}
use redo.Remote.Server.{IsKey, is_key, blob_path, action_path, Files, read_file}
use redo.Remote.Server.Paths.{blob_path_injective, action_path_injective, blob_path_ne_action_path}
use redo.Remote.Server.Handlers.{as_text}
use redo.Remote.Server.Spec.{Cache, put}

-- A test that follows another.
text_eq_same :
    (j k : Text) (a b : Text) → (j ≡ k → a ≡ b) → (a ≡ b → j ≡ k) → text_eq a b ≡ text_eq j k
text_eq_same j k a b f g = ground (arith, text_eq_iff j k, text_eq_iff a b)

text_eq_ne : (a b : Text) → ¬ (a ≡ b) → text_eq a b ≡ false
text_eq_ne a b h = ground (arith, text_eq_iff a b)

module _ (u : Utf8) (root : Text) where
  -- What the files mean: only keys have entries.
  unfoldable pub view : Files → Cache
  view fs = record {
    blobs = λ k. if is_key k then read_file (blob_path root k) fs else none;
    actions = λ k. if is_key k then as_text u (read_file (action_path root k) fs) else none;
  }

  -- The entries after a write.
  blobs_put :
      (k : Text) (b : Bytes) (fs : Files) (j : Text)
      → IsKey k
      → (view ((blob_path root k, b) ∷ fs)).blobs j ≡ put k b (view fs).blobs j
  unfolding view read_file put
  blobs_put k b fs j hk = elim (Bool-cases (is_key j)) [
    | inl hj ↦
        rw
          (
            hj,
            text_eq_same j k (blob_path root j) (blob_path root k) (ap (blob_path root))
                (blob_path_injective root j k hj hk),
          )
          refl
    | inr hj ↦
        let e : text_eq j k ≡ false =
          text_eq_ne j k (λ p. let q = sym hj ∙ ap is_key p ∙ hk in absurd cc) in
        rw (hj, e) refl
  ]

  as_text_choice :
      (t : Bool) (b : Bytes) (s : Text) (o : Option Bytes)
      → u.decode b ≡ some s
      → as_text u (if t then some b else o) ≡ (if t then some s else as_text u o)
  unfolding as_text
  as_text_choice true b s o h = h
  as_text_choice false b s o h = refl

  actions_put :
      (k : Text) (s : Text) (b : Bytes) (fs : Files) (j : Text)
      → IsKey k
      → u.decode b ≡ some s
      → (view ((action_path root k, b) ∷ fs)).actions j ≡ put k s (view fs).actions j
  unfolding view read_file put as_text
  actions_put k s b fs j hk hb = elim (Bool-cases (is_key j)) [
    | inl hj ↦
        rw
          (
            hj,
            text_eq_same j k (action_path root j) (action_path root k) (ap (action_path root))
                (action_path_injective root j k hj hk),
          )
          (as_text_choice (text_eq j k) b s (read_file (action_path root j) fs) hb)
    | inr hj ↦
        let e : text_eq j k ≡ false =
          text_eq_ne j k (λ p. let q = sym hj ∙ ap is_key p ∙ hk in absurd cc) in
        rw (hj, e) refl
  ]

  blobs_other :
      (k : Text) (b : Bytes) (fs : Files) (j : Text)
      → IsKey k
      → (view ((action_path root k, b) ∷ fs)).blobs j ≡ (view fs).blobs j
  unfolding view read_file
  blobs_other k b fs j hk = elim (Bool-cases (is_key j)) [
    | inl hj ↦
        rw
          (
            hj,
            text_eq_ne (blob_path root j) (action_path root k)
                (blob_path_ne_action_path root j k hj hk),
          )
          refl
    | inr hj ↦ rw hj refl
  ]

  actions_other :
      (k : Text) (b : Bytes) (fs : Files) (j : Text)
      → IsKey k
      → (view ((blob_path root k, b) ∷ fs)).actions j ≡ (view fs).actions j
  unfolding view read_file
  actions_other k b fs j hk = elim (Bool-cases (is_key j)) [
    | inl hj ↦
        rw
          (
            hj,
            text_eq_ne (action_path root j) (blob_path root k)
                (λ e. blob_path_ne_action_path root k j hk hj (sym e)),
          )
          refl
    | inr hj ↦ rw hj refl
  ]

  pub view_blob :
      (k : Text) (b : Bytes) (fs : Files)
      → IsKey k
      → record { blobs = put k b (view fs).blobs; actions = (view fs).actions }
        ≡ view ((blob_path root k, b) ∷ fs)
  view_blob k b fs hk = λ i. record {
    blobs = λ j. sym (blobs_put k b fs j hk) i;
    actions = λ j. sym (actions_other k b fs j hk) i;
  }

  pub view_action :
      (k s : Text) (b : Bytes) (fs : Files)
      → IsKey k
      → u.decode b ≡ some s
      → record { blobs = (view fs).blobs; actions = put k s (view fs).actions }
        ≡ view ((action_path root k, b) ∷ fs)
  view_action k s b fs hk hb = λ i. record {
    blobs = λ j. sym (blobs_other k b fs j hk) i;
    actions = λ j. sym (actions_put k s b fs j hk hb) i;
  }
