-- ===== src/Base/Trim.antt =====
-- The string methods that take a text apart: `trim`, `split_whitespace`, `split_once`, `lines`.
use Prim.Native.Nat.{ℕ, ◌+◌}
use mathlib.Core.Path.{◌≡◌, refl, ap, ◌∙◌}
use mathlib.Core.Bool.{Bool, false, ◌&&◌, ◌||◌, not}
use mathlib.Core.List.{List, [], ◌∷◌, ◌++◌, map}
use mathlib.Core.Option.{Option, none, some}
use native.Mathlib.Omega.{arith}
use redo.Base.Tests.{◌==◌, leb, if◌then◌else◌}
use redo.Base.Strings.{Text, is_empty, push_front, split_on}

-- The characters that `trim` removes.
abbrev pub is_whitespace : ℕ → Bool
is_whitespace c =
    leb 9 c && leb c 13
    || c == 32
    || c == 133
    || c == 160
    || c == 5760
    || leb 8192 c && leb c 8202
    || c == 8232
    || c == 8233
    || c == 8239
    || c == 8287
    || c == 12288

module _ (p : ℕ → Bool) where
  -- `trim_start_matches` and `trim_end_matches`
  unfoldable pub trim_start_by : Text → Text
  trim_start_by [] = []
  trim_start_by (c ∷ s) = let rest = trim_start_by s in if p c then rest else c ∷ s

  unfoldable pub trim_end_by : Text → Text
  unfolding is_empty
  trim_end_by [] = []
  trim_end_by (c ∷ s) = let rest = trim_end_by s in if is_empty rest && p c then [] else c ∷ rest

unfoldable pub trim_start : Text → Text
unfolding trim_start_by
trim_start s = trim_start_by is_whitespace s

unfoldable pub trim_end : Text → Text
unfolding trim_end_by
trim_end s = trim_end_by is_whitespace s

unfoldable pub trim : Text → Text
unfolding trim_start trim_end
trim s = trim_start (trim_end s)

abbrev pub starts_word : Text → Bool
starts_word [] = false
starts_word (c ∷ s) = not (is_whitespace c)

unfoldable pub split_whitespace : Text → List Text
split_whitespace [] = []
split_whitespace (c ∷ s) =
    let rest = split_whitespace s in
    if is_whitespace c then rest else if starts_word s then push_front c rest else (c ∷ []) ∷ rest

abbrev pub before_and_after : ℕ → Option (Text × Text) → Option (Text × Text)
before_and_after c none = none
before_and_after c (some (a, b)) = some (c ∷ a, b)

-- The texts before and behind the first separator.
unfoldable pub split_once : ℕ → Text → Option (Text × Text)
split_once sep [] = none
split_once sep (c ∷ s) =
    let rest = split_once sep s in if c == sep then some ([], s) else before_and_after c rest

unfoldable pub strip_cr : Text → Text
unfolding is_empty
strip_cr [] = []
strip_cr (c ∷ s) = let rest = strip_cr s in if is_empty s && c == 13 then [] else c ∷ rest

-- A carriage return before a line feed is part of the line's end; what follows the last line feed
-- is a line if it is not empty.
unfoldable pub lines_of : List Text → List Text
unfolding strip_cr is_empty
lines_of [] = []
lines_of (w ∷ []) = if is_empty w then [] else w ∷ []
lines_of (w ∷ v ∷ ws) = strip_cr w ∷ lines_of (v ∷ ws)

unfoldable pub lines : Text → List Text
unfolding lines_of split_on
lines s = lines_of (split_on 10 s)

abbrev pub to_lower : ℕ → ℕ
to_lower c = if leb 65 c && leb c 90 then c + 32 else c

unfoldable pub to_ascii_lowercase : Text → Text
to_ascii_lowercase s = map to_lower s

-- A text without whitespace is not trimmed.
abbrev pub has_space : Text → Bool
has_space [] = false
has_space (c ∷ s) = is_whitespace c || has_space s

module _ (p : ℕ → Bool) where
  pub trim_end_by-append :
      (s t : Text) → trim_end_by p t ≡ [] → trim_end_by p (s ++ t) ≡ trim_end_by p s
  unfolding trim_end_by
  trim_end_by-append [] t h = h
  trim_end_by-append (c ∷ s) t h =
      ap (λ (r : Text). if is_empty r && p c then [] else c ∷ r) (trim_end_by-append s t h)

pub trim_end_word : (s : Text) → has_space s ≡ false → trim_end s ≡ s
unfolding trim_end trim_end_by is_empty
trim_end_word [] h = refl
trim_end_word (c ∷ s) h = ground (arith, trim_end_word s)

trim_start_word : (s : Text) → has_space s ≡ false → trim_start s ≡ s
unfolding trim_start trim_start_by
trim_start_word [] h = refl
trim_start_word (c ∷ s) h = ground (arith, h)

pub trim_word : (s : Text) → has_space s ≡ false → trim s ≡ s
unfolding trim
trim_word s h = ap trim_start (trim_end_word s h) ∙ trim_start_word s h

pub trim_led : (s x : Text) → trim_end x ≡ s → trim_start s ≡ s → trim (32 ∷ x) ≡ s
unfolding trim trim_end trim_start trim_end_by trim_start_by is_empty
trim_led [] x e h = rw e refl
trim_led (c ∷ s) x e h = rw e h

-- The value of a header line: a space before, the end of the line behind.
pub trim_value : (s : Text) → has_space s ≡ false → trim (32 ∷ (s ++ (13 ∷ 10 ∷ []))) ≡ s
unfolding trim_end trim_end_by
trim_value s h =
    trim_led s (s ++ (13 ∷ 10 ∷ []))
      (trim_end_by-append is_whitespace s (13 ∷ 10 ∷ []) refl ∙ trim_end_word s h)
      (trim_start_word s h)
