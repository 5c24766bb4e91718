-- ===== src/Base/Splits.antt =====
-- Laws of `split` and `join` at a separator of one character.
use mathlib.Core.Path.{◌≡◌, refl, ap, ◌∙◌}
use mathlib.Core.Logic.{◌≢◌}
use mathlib.Core.Bool.{false}
use mathlib.Core.List.{List, [], ◌∷◌, ◌++◌}
use Prim.Native.Nat.{ℕ}
use native.Mathlib.Omega.{arith}
use redo.Base.Tests.{◌==◌}
use redo.Base.Lists.{contains, All}
use redo.Base.Strings.{Text, split_on, push_front, join_with}

module _ (sep : ℕ) where
  abbrev pub Lacks : Text → Type 0
  Lacks w = contains w sep ≡ false

  split_on_cons :
      (c : ℕ) (s : Text) → sep == c ≡ false → split_on sep (c ∷ s) ≡ push_front c (split_on sep s)
  unfolding split_on
  split_on_cons c s h = ground arith

  pub split_on-append : (w t : Text) → Lacks w → split_on sep (w ++ (sep ∷ t)) ≡ w ∷ split_on sep t
  unfolding split_on
  split_on-append [] t h = ground arith
  split_on-append (c ∷ w) t h = ground (arith, split_on-append w t)

  pub split_on_single : (w : Text) → Lacks w → split_on sep w ≡ w ∷ []
  unfolding split_on
  split_on_single [] h = refl
  split_on_single (c ∷ w) h = ground (arith, split_on_single w)

  -- Splitting a joined list gives it back, if no piece holds the separator.
  pub split_on-join_with :
      (w : Text) (ws : List Text)
      → Lacks w
      → All Lacks ws
      → split_on sep (join_with sep (w ∷ ws)) ≡ w ∷ ws
  unfolding join_with
  split_on-join_with w [] h hs = split_on_single w h
  split_on-join_with w (v ∷ ws) h hs =
      split_on-append w (join_with sep (v ∷ ws)) h
      ∙ ap (λ (t : List Text). w ∷ t) (split_on-join_with v ws hs.0 hs.1)

  push_front-Lacks :
      (c : ℕ) (ws : List Text) → sep == c ≡ false → All Lacks ws → All Lacks (push_front c ws)
  push_front-Lacks c [] h hs = ground arith
  push_front-Lacks c (w ∷ ws) h hs = ground arith

  pub split_on-Lacks : (s : Text) → All Lacks (split_on sep s)
  unfolding split_on
  split_on-Lacks [] = (refl, tt)
  split_on-Lacks (c ∷ s) = ground (arith, split_on-Lacks s, push_front-Lacks c (split_on sep s))

  -- Joining the pieces of a text gives it back.
  push_front_join :
      (c : ℕ) (ws : List Text) → join_with sep (push_front c ws) ≡ c ∷ join_with sep ws
  unfolding join_with
  push_front_join c [] = refl
  push_front_join c (w ∷ []) = refl
  push_front_join c (w ∷ v ∷ ws) = refl

  pub split_on_ne_nil : (s : Text) → split_on sep s ≢ []
  unfolding split_on
  split_on_ne_nil [] = λ e. cc
  split_on_ne_nil (c ∷ s) = ground arith

  join_nil : (ws : List Text) → ws ≢ [] → join_with sep ([] ∷ ws) ≡ sep ∷ join_with sep ws
  unfolding join_with
  join_nil [] h = absurd (h refl)
  join_nil (w ∷ ws) h = refl

  pub join_with-split_on : (s : Text) → join_with sep (split_on sep s) ≡ s
  unfolding split_on join_with
  join_with-split_on [] = refl
  join_with-split_on (c ∷ s) = ground (
    arith,
    join_with-split_on s,
    push_front_join c (split_on sep s),
    join_nil (split_on sep s),
    split_on_ne_nil s,
  )
