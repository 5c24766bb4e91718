-- ===== src/Base/Words.antt =====
-- Words of a text, and numbers as words.
use Prim.Native.Nat.{ℕ, ◌<◌}
use mathlib.Core.Path.{◌≡◌, refl, ap, ◌∙◌}
use mathlib.Core.Logic.{◌≢◌}
use mathlib.Core.Bool.{true, false}
use mathlib.Core.List.{[], ◌∷◌, ◌++◌}
use native.Mathlib.Omega.{arith}
use redo.Base.Lists.{All}
use redo.Base.Strings.{Text, push_front}
use redo.Base.Decimal.{to_string}
use redo.Base.Parse.{all_digits, all_digits-to_string}
use redo.Base.Trim.{is_whitespace, starts_word, split_whitespace, has_space}

split_whitespace_cons :
    (c : ℕ) (s : Text)
    → is_whitespace c ≡ false
    → starts_word s ≡ true
    → split_whitespace (c ∷ s) ≡ push_front c (split_whitespace s)
unfolding split_whitespace
split_whitespace_cons c s h k = rw (h, k) refl

-- The first word ends at a space.
pub split_whitespace_word :
    (w t : Text)
    → w ≢ []
    → has_space w ≡ false
    → split_whitespace (w ++ (32 ∷ t)) ≡ w ∷ split_whitespace t
unfolding split_whitespace
split_whitespace_word [] t n h = absurd (n refl)
split_whitespace_word (c ∷ []) t n h =
    let visible : is_whitespace c ≡ false = ground (arith, h) in rw visible refl
split_whitespace_word (c ∷ d ∷ w) t n h =
    let visible : is_whitespace c ≡ false = ground (arith, h) in
    let next : starts_word (d ∷ (w ++ (32 ∷ t))) ≡ true = ground (arith, h) in
    let more : has_space (d ∷ w) ≡ false = ground (arith, h) in
    split_whitespace_cons c (d ∷ (w ++ (32 ∷ t))) visible next
    ∙ ap (push_front c) (split_whitespace_word (d ∷ w) t (λ e. cc) more)

digits_word : (s : Text) → all_digits s ≡ true → has_space s ≡ false
unfolding all_digits
digits_word [] h = refl
digits_word (c ∷ s) h = ground (arith, h, digits_word s)

pub has_space-to_string : (n : ℕ) → has_space (to_string n) ≡ false
has_space-to_string n = digits_word (to_string n) (all_digits-to_string n)

digits_ascii : (s : Text) → all_digits s ≡ true → All (λ (c : ℕ). c < 128) s
unfolding all_digits
digits_ascii [] h = tt
digits_ascii (c ∷ s) h = ground (arith, h, digits_ascii s)

pub to_string_ascii : (n : ℕ) → All (λ (c : ℕ). c < 128) (to_string n)
to_string_ascii n = digits_ascii (to_string n) (all_digits-to_string n)
