-- ===== src/Env/Find/Nearest.antt =====
-- `find_base` chooses the nearest ancestor of the common prefix that has a .redo directory.
use redo.Base.{
  ℕ, zero, suc, ◌<◌, Bool, true, false, List, [], ◌∷◌, ◌++◌, Text, codes, ◌≡◌, refl, subst, arith,
  inl, inr, ◌⊎◌, Bool-cases, length, take, ◌≢◌, map, join_with, split_on, split_on_ne_nil,
}
use redo.Paths.Components.{slash}
use redo.Env.Find.{try_ancestors, commonprefix, dirs_of, find_base, one_less, target_dir}
use redo.Env.Find.Laws.{IsCommon, commonprefix-IsCommon}

-- The first `i` parts of a path, and whether .redo is in there.
abbrev pub ancestor : Text → ℕ → Text
ancestor base i = join_with slash (take i (split_on slash base))

abbrev pub has_redo : (Text → Bool) → Text → Bool
has_redo exists dir = exists (dir ++ codes "/.redo")

-- What is chosen below `n` parts: the nearest ancestor with .redo, or else the path itself.
pub data Nearest (exists : Text → Bool) (base : Text) (n : ℕ) : Text → Type 0 where
  ancestor_at :
      {p : Text} (i : ℕ)
      → 0 < i
      → i < n
      → p ≡ ancestor base i
      → has_redo exists (ancestor base i) ≡ true
      → ((j : ℕ) → i < j → j < n → has_redo exists (ancestor base j) ≡ false)
      → Nearest exists base n p
  itself :
      {p : Text}
      → p ≡ base
      → ((j : ℕ) → 0 < j → j < n → has_redo exists (ancestor base j) ≡ false)
      → Nearest exists base n p

last_or_less : (n j : ℕ) → j < suc (suc n) → (j ≡ suc n) ⊎ (j < suc n)
last_or_less n j h = ground (arith, h)

last_one :
    (n : ℕ) (f : ℕ → Bool) (P : ℕ → Type 0)
    → ((j : ℕ) → P j → j < suc n → f j ≡ false)
    → f (suc n) ≡ false
    → (j : ℕ) → P j
    → j < suc (suc n)
    → f j ≡ false
last_one n f P rest here j p q = elim (last_or_less n j q) [
  | inl e ↦ rw e here
  | inr less ↦ rest j p less
]

module _ (exists : Text → Bool) (base : Text) where
  Nearest-suc :
      (n : ℕ) (p : Text)
      → has_redo exists (ancestor base (suc n)) ≡ false
      → Nearest exists base (suc n) p
      → Nearest exists base (suc (suc n)) p
  Nearest-suc n p none_here (ancestor_at i pos lt e has rest) =
      ancestor_at i pos (omega (arith, lt)) e has (λ j p q.
        last_one n (λ k. has_redo exists (ancestor base k)) (λ k. i < k) rest none_here j p q)
  Nearest-suc n p none_here (itself e rest) = itself e (λ j p q.
      last_one n (λ k. has_redo exists (ancestor base k)) (λ k. 0 < k) rest none_here j p q)

  try_ancestors-Nearest :
      (n : ℕ) → Nearest exists base (suc n) (try_ancestors exists (split_on slash base) base n)
  unfolding try_ancestors
  try_ancestors-Nearest zero = itself refl (λ j p q. absurd (omega (arith, p, q)))
  try_ancestors-Nearest (suc n) = elim (Bool-cases (has_redo exists (ancestor base (suc n)))) [
    | inl here ↦ rw here (
        ancestor_at (suc n) (omega arith) (omega arith) refl here
          (λ j p q. absurd (omega (arith, p, q))))
    | inr gone ↦ rw gone (
        Nearest-suc n (try_ancestors exists (split_on slash base) base n) gone
          (try_ancestors-Nearest n))
  ]

suc-one_less : (l : List Text) → l ≢ [] → suc (one_less (length l)) ≡ length l
suc-one_less [] h = absurd (h refl)
suc-one_less (t ∷ ts) h = refl

module _ (exists : Text → Bool) (cwd : Text) where
  dirs-IsCommon :
      (targets : List Text) → IsCommon (dirs_of cwd targets) (commonprefix (dirs_of cwd targets))
  unfolding dirs_of
  dirs-IsCommon [] = commonprefix-IsCommon (target_dir cwd (codes "all")) (cwd ∷ [])
  dirs-IsCommon (t ∷ ts) =
      commonprefix-IsCommon (target_dir cwd t) (map (target_dir cwd) ts ++ (cwd ∷ []))

  -- The base is chosen from the longest text with which the current directory and the
  -- directories of all targets begin: it is the nearest of its proper ancestors that has a
  -- .redo, or the text itself if none has.
  pub find_base-Nearest :
      (targets : List Text)
      → let base = commonprefix (dirs_of cwd targets) in
        IsCommon (dirs_of cwd targets) base
        × Nearest exists base (length (split_on slash base)) (find_base exists cwd targets)
  unfolding find_base
  find_base-Nearest targets =
      let base = commonprefix (dirs_of cwd targets) in
      let parts = split_on slash base in
      (
        dirs-IsCommon targets,
        subst (λ (n : ℕ). Nearest exists base n (find_base exists cwd targets))
            (suc-one_less parts (split_on_ne_nil slash base))
            (try_ancestors-Nearest exists base (one_less (length parts))),
      )
