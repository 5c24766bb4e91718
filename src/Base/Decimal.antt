-- ===== src/Base/Decimal.antt =====
-- `to_string` of an integer, which the source uses of ids that are not negative.
use Prim.Native.Nat.{ℕ, zero, suc, ◌+◌, ◌-◌, ◌*◌, ◌/◌, ◌%◌, ◌≤◌, ◌<◌}
use mathlib.Core.Path.{◌≡◌, refl, ap, ◌∙◌}
use mathlib.Core.Logic.{◌≢◌, ◌⊎◌, inl, inr}
use mathlib.Core.Bool.{false}
use mathlib.Core.List.{[], ◌∷◌}
use native.Mathlib.Omega.{arith}
use redo.Base.Tests.{◌==◌, if◌then◌else◌, Bool-cases}
use redo.Base.Lists.{contains}
use redo.Base.Strings.{Text}

unfoldable pub digits_from : ℕ → ℕ → Text → Text
digits_from zero n acc = acc
digits_from (suc f) n acc =
    let d = (48 + n % 10) ∷ acc in
    let rest = digits_from f (n / 10) d in if n / 10 == 0 then d else rest

unfoldable pub to_string : ℕ → Text
unfolding digits_from
to_string n = digits_from (suc n) n []

unfoldable pub read_from : ℕ → Text → ℕ
read_from v [] = v
read_from v (c ∷ s) = read_from (v * 10 + (c - 48)) s

read_from-digits_from :
    (f n : ℕ) (acc : Text) → n < f → read_from 0 (digits_from f n acc) ≡ read_from n acc
unfolding digits_from read_from
read_from-digits_from zero n acc h = elim h [ ]
read_from-digits_from (suc f) n acc h =
    let d = (48 + n % 10) ∷ acc in
    let e : n / 10 * 10 + (48 + n % 10 - 48) ≡ n = omega arith in
    elim (Bool-cases (n / 10 == 0)) [
      | inl last ↦
          let z : 0 * 10 + (48 + n % 10 - 48) ≡ n = ground arith in
          rw last (ap (λ (v : ℕ). read_from v acc) z)
      | inr more ↦
          rw more
            (read_from-digits_from f (n / 10) d (ground arith) ∙ ap (λ (v : ℕ). read_from v acc) e)
    ]

pub read_to_string : (n : ℕ) → read_from 0 (to_string n) ≡ n
unfolding to_string read_from
read_to_string n = read_from-digits_from (suc n) n [] (omega arith)

pub to_string_injective : (m n : ℕ) → to_string m ≡ to_string n → m ≡ n
unfolding to_string read_from
to_string_injective m n e = omega (
  arith,
  read_from-digits_from (suc m) m [],
  read_from-digits_from (suc n) n [],
  ap (read_from 0) e,
)

abbrev pub IsNotDigit : ℕ → Type 0
IsNotDigit sep = (sep < 48) ⊎ (58 ≤ sep)

contains-digits_from :
    (sep f n : ℕ) (acc : Text)
    → IsNotDigit sep
    → contains (digits_from f n acc) sep ≡ contains acc sep
unfolding digits_from
contains-digits_from sep zero n acc h = refl
contains-digits_from sep (suc f) n acc h =
    ground (arith, contains-digits_from sep f (n / 10) ((48 + n % 10) ∷ acc))

-- A number prints as digits only.
pub contains-to_string : (sep n : ℕ) → IsNotDigit sep → contains (to_string n) sep ≡ false
unfolding to_string
contains-to_string sep n h = contains-digits_from sep (suc n) n [] h

digits_from_ne_nil : (f n : ℕ) (acc : Text) → acc ≢ [] → digits_from f n acc ≢ []
unfolding digits_from
digits_from_ne_nil zero n acc h = h
digits_from_ne_nil (suc f) n acc h =
    ground (arith, digits_from_ne_nil f (n / 10) ((48 + n % 10) ∷ acc))

pub to_string_ne_nil : (n : ℕ) → to_string n ≢ []
unfolding to_string digits_from
to_string_ne_nil n = ground (arith, digits_from_ne_nil n (n / 10) ((48 + n % 10) ∷ []))
