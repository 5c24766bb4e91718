-- ===== src/Base/Steps.antt =====
-- Code that changes a state and may fail: the state comes back beside the result, also beside an
-- error, as the methods of redo_core leave it.
use redo.Base.Errors.{Result, ok, err}

-- A call on a state `S` that answers with an `A`.
abbrev pub M : Type 0 → Type 0 → Type 0
M S A = S → Result A × S

abbrev pub and_then : {S A B : Type 0} → (A → M S B) → Result A × S → Result B × S
and_then f (ok a, t) = f a t
and_then f (err e, t) = (err e, t)

abbrev pub answer : {S A : Type 0} → Result A → M S A
answer r s = (r, s)

abbrev pub update : {S : Type 0} → (S → S) → M S (Unit {0})
update g s = (ok tt, g s)

-- What holds of the answer and of the state that a call leaves, if it does not fail.
abbrev pub Ensures : {S A : Type 0} → Result A × S → (A → S → Type 0) → Type 0
Ensures (ok a, t) P = P a t
Ensures (err e, t) P = Unit

-- A call that is followed by another: what the first ensures is what the second may assume.
pub and_then-Ensures :
    {S A B : Type 0} (P : A → S → Type 0) (Q : B → S → Type 0) (r : Result A × S) (f : A → M S B)
    → Ensures r P
    → ((a : A) (t : S) → P a t → Ensures (f a t) Q)
    → Ensures (and_then f r) Q
and_then-Ensures P Q (ok a, t) f h k = k a t h
and_then-Ensures P Q (err e, t) f h k = tt

infixl 5 ◌>>=◌ ◌>>◌
abbrev pub ◌>>=◌ : {S A B : Type 0} → M S A → (A → M S B) → M S B
◌>>=◌ m f s = and_then f (m s)

abbrev pub ◌>>◌ : {S B : Type 0} → M S (Unit {0}) → M S B → M S B
◌>>◌ m k s = and_then (λ _. k) (m s)
