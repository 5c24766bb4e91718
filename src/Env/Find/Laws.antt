-- ===== src/Env/Find/Laws.antt =====
-- The common prefix, and the ancestor that `find_base` chooses.
use redo.Base.{
  true, false, List, [], ◌∷◌, Text, text_leb, ◌≡◌, refl, sym, subst, arith, ◌==◌, inl, inr, ◌⊎◌,
  Bool-cases, All,
}
use redo.Env.Find.{min_text, max_text, common, commonprefix}

-- One text begins with another.
abbrev pub Begins : Text → Text → Type 0
Begins [] t = Unit
Begins (c ∷ s) [] = ⊥
Begins (c ∷ s) (d ∷ t) = (c ≡ d) × Begins s t

leb_refl : (s : Text) → text_leb s s ≡ true
unfolding text_leb
leb_refl [] = refl
leb_refl (c ∷ s) = ground (arith, leb_refl s)

leb_trans : (s t u : Text) → text_leb s t ≡ true → text_leb t u ≡ true → text_leb s u ≡ true
unfolding text_leb
leb_trans [] t u h k = refl
leb_trans (c ∷ s) [] u h k = cc
leb_trans (c ∷ s) (d ∷ t) [] h k = cc
leb_trans (c ∷ s) (d ∷ t) (e ∷ u) h k = ground (arith, h, k, leb_trans s t u)

leb_total : (s t : Text) → text_leb s t ≡ false → text_leb t s ≡ true
unfolding text_leb
leb_total [] t h = cc
leb_total (c ∷ s) [] h = refl
leb_total (c ∷ s) (d ∷ t) h = ground (arith, h, leb_total s t)

abbrev Least : Text → List Text → Type 0
Least m ss = All (λ s. text_leb m s ≡ true) ss

abbrev Greatest : Text → List Text → Type 0
Greatest m ss = All (λ s. text_leb s m ≡ true) ss

min_text_cons :
    (m s : Text) (ss : List Text)
    → (min_text m (s ∷ ss) ≡ min_text m ss) × (text_leb m s ≡ true)
      ⊎ (min_text m (s ∷ ss) ≡ min_text s ss) × (text_leb s m ≡ true)
unfolding min_text
min_text_cons m s ss = elim (Bool-cases (text_leb m s)) [
  | inl h ↦ inl (rw h refl, h)
  | inr h ↦ inr (rw h refl, leb_total m s h)
]

max_text_cons :
    (m s : Text) (ss : List Text)
    → (max_text m (s ∷ ss) ≡ max_text s ss) × (text_leb m s ≡ true)
      ⊎ (max_text m (s ∷ ss) ≡ max_text m ss) × (text_leb s m ≡ true)
unfolding max_text
max_text_cons m s ss = elim (Bool-cases (text_leb m s)) [
  | inl h ↦ inl (rw h refl, h)
  | inr h ↦ inr (rw h refl, leb_total m s h)
]

abbrev IsMin : Text → List Text → Text → Type 0
IsMin m ss x = (text_leb x m ≡ true) × Least x ss

abbrev IsMax : Text → List Text → Text → Type 0
IsMax m ss x = (text_leb m x ≡ true) × Greatest x ss

min_text-IsMin : (m : Text) (ss : List Text) → IsMin m ss (min_text m ss)
unfolding min_text
min_text-IsMin m [] = (leb_refl m, tt)
min_text-IsMin m (s ∷ ss) = elim (min_text_cons m s ss) [
  | inl (e, h) ↦
      let (a, b) = min_text-IsMin m ss in
      subst (IsMin m (s ∷ ss)) (sym e) (a, (leb_trans (min_text m ss) m s a h, b))
  | inr (e, h) ↦
      let (a, b) = min_text-IsMin s ss in
      subst (IsMin m (s ∷ ss)) (sym e) (leb_trans (min_text s ss) s m a h, (a, b))
]

max_text-IsMax : (m : Text) (ss : List Text) → IsMax m ss (max_text m ss)
unfolding max_text
max_text-IsMax m [] = (leb_refl m, tt)
max_text-IsMax m (s ∷ ss) = elim (max_text_cons m s ss) [
  | inl (e, h) ↦
      let (a, b) = max_text-IsMax s ss in
      subst (IsMax m (s ∷ ss)) (sym e) (leb_trans m s (max_text s ss) h a, (a, b))
  | inr (e, h) ↦
      let (a, b) = max_text-IsMax m ss in
      subst (IsMax m (s ∷ ss)) (sym e) (a, (leb_trans s m (max_text m ss) h a, b))
]

-- What two texts share, every text between them begins with.
common-between : (a b s : Text) → text_leb a s ≡ true → text_leb s b ≡ true → Begins (common a b) s
unfolding common text_leb
common-between [] b s h k = tt
common-between (c ∷ a) [] s h k = tt
common-between (c ∷ a) (d ∷ b) [] h k = cc
common-between (c ∷ a) (d ∷ b) (e ∷ s) h k = elim (Bool-cases (c == d)) [
  | inl same ↦ rw same (
    ground (arith, same, h, k),
    common-between a b s (ground (arith, same, h, k)) (ground (arith, same, h, k)),
  )
  | inr other ↦ rw other tt
]

-- A prefix of both of two texts is a prefix of what they share.
common-longest : (p a b : Text) → Begins p a → Begins p b → Begins p (common a b)
unfolding common
common-longest [] a b h k = tt
common-longest (c ∷ p) [] b h k = h
common-longest (c ∷ p) (d ∷ a) [] h k = k
common-longest (c ∷ p) (d ∷ a) (e ∷ b) h k =
    let same : d == e ≡ true = ground (arith, h.0, k.0) in
    rw same (h.0, common-longest p a b h.1 k.1)

-- The least and the greatest of some texts are among them.
min_text-among :
    (P : Text → Type 0) (m : Text) (ss : List Text) → P m → All P ss → P (min_text m ss)
unfolding min_text
min_text-among P m [] h k = h
min_text-among P m (s ∷ ss) h k = elim (min_text_cons m s ss) [
  | inl (e, l) ↦ subst P (sym e) (min_text-among P m ss h k.1)
  | inr (e, l) ↦ subst P (sym e) (min_text-among P s ss k.0 k.1)
]

max_text-among :
    (P : Text → Type 0) (m : Text) (ss : List Text) → P m → All P ss → P (max_text m ss)
unfolding max_text
max_text-among P m [] h k = h
max_text-among P m (s ∷ ss) h k = elim (max_text_cons m s ss) [
  | inl (e, l) ↦ subst P (sym e) (max_text-among P s ss k.0 k.1)
  | inr (e, l) ↦ subst P (sym e) (max_text-among P m ss h k.1)
]

between_all :
    (a b : Text) (ss : List Text) → Least a ss → Greatest b ss → All (Begins (common a b)) ss
between_all a b [] h k = tt
between_all a b (s ∷ ss) h k = (common-between a b s h.0 k.0, between_all a b ss h.1 k.1)

-- The longest text with which all of some texts begin.
pub record IsCommon (ss : List Text) (p : Text) : Type 0 where
  pub prefix : All (Begins p) ss
  pub longest : (q : Text) → All (Begins q) ss → Begins q p

pub commonprefix-IsCommon : (s : Text) (ss : List Text) → IsCommon (s ∷ ss) (commonprefix (s ∷ ss))
unfolding commonprefix
commonprefix-IsCommon s ss =
    let (a, least) = min_text-IsMin s ss in
    let (b, greatest) = max_text-IsMax s ss in
    record {
      prefix = (
        common-between (min_text s ss) (max_text s ss) s a b,
        between_all (min_text s ss) (max_text s ss) ss least greatest,
      );
      longest = λ q h.
          common-longest q (min_text s ss) (max_text s ss) (min_text-among (Begins q) s ss h.0 h.1)
            (max_text-among (Begins q) s ss h.0 h.1);
    }
