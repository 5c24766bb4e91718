-- ===== src/Builder/Shuffle.antt =====
-- `shuffle_in_place_with_seed` of redo_core/src/builder.rs: the order of targets for --shuffle, from
-- a seed of 64 bits.
use Prim.Native.Nat.{bit_xor}
use mathlib.Core.List.{Perm}
use mathlib.Core.List.Perm
use native.Mathlib.Nat.{mod-lt}
use mathlib.Core.Option.{some-injective}
use redo.Base.{
  ℕ, zero, suc, ◌+◌, ◌*◌, ◌/◌, ◌%◌, ◌^◌, ◌≡◌, refl, sym, subst, ap, ◌∙◌, ◌<◌, arith, Option, List,
  [], ◌∷◌, none, some, ◌==◌, if◌then◌else◌, length, get_elem?, set,
}

-- xorshift64*: shifts to the left and the product keep 64 bits.
unfoldable pub xorshift : ℕ → ℕ
xorshift x0 =
    let x1 = bit_xor x0 (x0 / 2 ^ 12) in
    let x2 = bit_xor x1 (x1 * 2 ^ 25 % 2 ^ 64) in bit_xor x2 (x2 / 2 ^ 27)

unfoldable pub scramble : ℕ → ℕ
unfolding xorshift
scramble x = xorshift x * 2685821657736338717 % 2 ^ 64

unfoldable pub start_seed : ℕ → ℕ
start_seed x = if x == 0 then 1311768467463790320 else x

-- `v.swap(i, j)`, which panics if an index is out of bounds: none is a panic.
unfoldable pub swap {ℓ} : {A : Type ℓ} → ℕ → ℕ → List A → Option (List A)
swap i j v = elim (get_elem? v i) [
  | none ↦ none
  | some a ↦ elim (get_elem? v j) [ none ↦ none | some b ↦ some (set (set v i b) j a) ]
]

-- What follows a swap, if it does not panic.
abbrev pub or_panic {ℓ} : {A : Type ℓ} → (A → Option A) → Option A → Option A
or_panic more none = none
or_panic more (some v) = more v

-- The loop from an index down to 1.
unfoldable pub shuffle_from {ℓ} : {A : Type ℓ} → ℕ → ℕ → List A → Option (List A)
unfolding scramble swap
shuffle_from zero x v = some v
shuffle_from (suc i) x v =
    let y = scramble x in or_panic (shuffle_from i y) (swap (suc i) (y % (suc i + 1)) v)

unfoldable pub shuffle_in_place_with_seed {ℓ} : {A : Type ℓ} → List A → ℕ → Option (List A)
unfolding shuffle_from start_seed
shuffle_in_place_with_seed [] x = some []
shuffle_in_place_with_seed (a ∷ v) x = shuffle_from (length v) (start_seed x) (a ∷ v)

module _ {ℓ} {A : Type ℓ} where
  set-Perm : (v : List A) (i : ℕ) (a b : A) → get_elem? v i ≡ some a → Perm (a ∷ set v i b) (b ∷ v)
  set-Perm [] i a b h = cc
  set-Perm (x ∷ v) zero a b h =
      subst (λ (y : A). Perm (a ∷ b ∷ v) (b ∷ y ∷ v)) (sym (some-injective x a h)) (Perm.swap b a v)
  set-Perm (x ∷ v) (suc i) a b h =
      Perm.trans (Perm.swap x a (set v i b))
        (Perm.trans (Perm.cons x (set-Perm v i a b h)) (Perm.swap b x v))

  get_elem?-set :
      (v : List A) (i j : ℕ) (b : A) → get_elem? v j ≡ some b → get_elem? (set v i b) j ≡ some b
  get_elem?-set [] i j b h = h
  get_elem?-set (x ∷ v) zero zero b h = refl
  get_elem?-set (x ∷ v) zero (suc j) b h = h
  get_elem?-set (x ∷ v) (suc i) zero b h = h
  get_elem?-set (x ∷ v) (suc i) (suc j) b h = get_elem?-set v i j b h

  get_elem?-lt : (v : List A) (i : ℕ) → i < length v → (a : A) × (get_elem? v i ≡ some a)
  get_elem?-lt [] i h = absurd (omega (arith, h))
  get_elem?-lt (x ∷ v) zero h = (x, refl)
  get_elem?-lt (x ∷ v) (suc i) h = get_elem?-lt v i (omega (arith, h))

  length-set : (v : List A) (i : ℕ) (b : A) → length (set v i b) ≡ length v
  length-set [] i b = refl
  length-set (x ∷ v) zero b = refl
  length-set (x ∷ v) (suc i) b = ap suc (length-set v i b)

  -- A swap within bounds does not panic.
  swap-Perm :
      (i j : ℕ) (v : List A)
      → i < length v
      → j < length v
      → (u : List A) × (swap i j v ≡ some u) × (length u ≡ length v) × Perm u v
  unfolding swap
  swap-Perm i j v hi hj =
      let (a, at_i) = get_elem?-lt v i hi in
      let (b, at_j) = get_elem?-lt v j hj in
      (
        set (set v i b) j a,
        rw (at_i, at_j, swap) refl,
        length-set (set v i b) j a ∙ length-set v i b,
        Perm.cons_inv (
            Perm.trans (set-Perm (set v i b) j b a (get_elem?-set v i j b at_j))
              (set-Perm v i a b at_i)),
      )

  shuffle_from-Perm :
      (i x : ℕ) (v : List A)
      → i < length v
      → (u : List A) × (shuffle_from i x v ≡ some u) × Perm u v
  unfolding shuffle_from
  shuffle_from-Perm zero x v h = (v, refl, Perm.refl v)
  shuffle_from-Perm (suc i) x v h =
      let j = scramble x % (suc i + 1) in
      let small : j < suc i + 1 = mod-lt (scramble x) (omega arith) in
      let (w, swapped, same, p) = swap-Perm (suc i) j v h (omega (arith, h, small)) in
      let (u, rest, q) = shuffle_from-Perm i (scramble x) w (omega (arith, h, same)) in
      (u, rw swapped rest, Perm.trans q p)

  -- A shuffle of targets never swaps out of bounds, which would panic, and loses none and
  -- doubles none, for every seed.
  pub shuffle_in_place_with_seed-Perm :
      (v : List A) (x : ℕ) → (u : List A) × (shuffle_in_place_with_seed v x ≡ some u) × Perm u v
  unfolding shuffle_in_place_with_seed
  shuffle_in_place_with_seed-Perm [] x = ([], refl, Perm.refl [])
  shuffle_in_place_with_seed-Perm (a ∷ v) x =
      shuffle_from-Perm (length v) (start_seed x) (a ∷ v) (omega arith)
