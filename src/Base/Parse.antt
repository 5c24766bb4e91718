-- ===== src/Base/Parse.antt =====
-- `str::parse` of integers, and the pieces of `split` and `find` that parsers use.
use Prim.Native.Nat.{ℕ, zero, suc, ◌+◌, ◌/◌, ◌%◌, ◌<◌}
use mathlib.Core.Path.{◌≡◌, refl}
use mathlib.Core.Bool.{Bool, true, false, ◌&&◌, ◌||◌, not}
use mathlib.Core.List.{[], ◌∷◌}
use mathlib.Core.Option.{Option, none, some}
use native.Mathlib.Omega.{arith}
use redo.Base.Tests.{◌==◌, leb, ltb, if◌then◌else◌}
use redo.Base.Strings.{Text, strip_prefix, is_empty}
use redo.Base.Decimal.{digits_from, to_string, read_from, read_to_string, to_string_ne_nil}

unfoldable pub all_digits : Text → Bool
all_digits [] = true
all_digits (c ∷ s) = leb 48 c && leb c 57 && all_digits s

-- `parse` without a sign: at least one digit, and digits only.
unfoldable pub parse_digits : Text → Option ℕ
unfolding all_digits is_empty read_from
parse_digits s = if is_empty s || not (all_digits s) then none else some (read_from 0 s)

all_digits-digits_from :
    (f n : ℕ) (acc : Text) → all_digits acc ≡ true → all_digits (digits_from f n acc) ≡ true
unfolding all_digits digits_from
all_digits-digits_from zero n acc h = h
all_digits-digits_from (suc f) n acc h =
    ground (arith, all_digits-digits_from f (n / 10) ((48 + n % 10) ∷ acc))

pub all_digits-to_string : (n : ℕ) → all_digits (to_string n) ≡ true
unfolding to_string all_digits
all_digits-to_string n = all_digits-digits_from (suc n) n [] refl

is_empty_lem : (s : Text) → ¬ (s ≡ []) → is_empty s ≡ false
unfolding is_empty
is_empty_lem [] h = absurd (h refl)
is_empty_lem (c ∷ s) h = refl

-- What `to_string` prints is parsed to the number again.
pub parse_digits-to_string : (n : ℕ) → parse_digits (to_string n) ≡ some n
unfolding parse_digits
parse_digits-to_string n =
    rw (all_digits-to_string n, is_empty_lem (to_string n) (to_string_ne_nil n), read_to_string n)
      refl

-- The text behind the first place where a pattern occurs: `find`, and the slice behind the match.
unfoldable pub after : Text → Text → Option Text
unfolding strip_prefix
after p [] = strip_prefix p []
after p (c ∷ s) =
    let rest = after p s in elim (strip_prefix p (c ∷ s)) [ some t ↦ some t | none ↦ rest ]

-- `parse` of an unsigned type with the values below `bound`: a plus sign is allowed.
abbrev pub strip_plus : Text → Text
strip_plus [] = []
strip_plus (c ∷ s) = if c == b'+' then s else c ∷ s

abbrev pub below : ℕ → Option ℕ → Option ℕ
below bound none = none
below bound (some n) = if ltb n bound then some n else none

unfoldable pub parse_unsigned : ℕ → Text → Option ℕ
unfolding parse_digits
parse_unsigned bound s = below bound (parse_digits (strip_plus s))

strip_plus_digits : (s : Text) → all_digits s ≡ true → strip_plus s ≡ s
unfolding all_digits
strip_plus_digits [] h = refl
strip_plus_digits (c ∷ s) h = ground (arith, h)

pub parse_unsigned-to_string :
    (bound n : ℕ) → n < bound → parse_unsigned bound (to_string n) ≡ some n
unfolding parse_unsigned
parse_unsigned-to_string bound n h =
    rw (strip_plus_digits (to_string n) (all_digits-to_string n), parse_digits-to_string n)
      (ground (arith, h))
