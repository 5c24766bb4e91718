-- ===== src/Env/Find.antt =====
-- `find_base` of redo_core/src/env.rs: the directory whose .redo holds the database.
pub mod Laws
pub mod Nearest
use mathlib.Core.List.{foldl}
use redo.Base.{
  ℕ, zero, suc, Bool, true, false, not, List, [], ◌∷◌, ◌++◌, Text, codes, text_eq, is_empty, ◌==◌,
  Option, none, some, if◌then◌else◌, join_with, split_on, text_leb, trim_end_by, length, take, map,
}
use redo.Paths.Components.{slash, is_absolute, join}
use redo.Paths.Normalize.{normalize_path}

-- The copy of `normalize_path` that env.rs has.
unfoldable pub lexical : Text → Text
unfolding normalize_path
lexical p = normalize_path p

-- The text up to the last slash, with it: `&p[..i]`.
unfoldable pub up_to_slash : Text → Text
unfolding is_empty
up_to_slash [] = []
up_to_slash (c ∷ s) =
    let head = up_to_slash s in
    if is_empty head then (if c == slash then c ∷ [] else []) else c ∷ head

unfoldable pub all_slashes : Text → Bool
all_slashes [] = true
all_slashes (c ∷ s) = if c == slash then all_slashes s else false

unfoldable pub posix_dirname : Text → Text
unfolding up_to_slash all_slashes trim_end_by
posix_dirname p =
    let head = up_to_slash p in
    if all_slashes head then head else trim_end_by (λ c. c == slash) head

unfoldable pub abspath : Text → Text → Text
unfolding is_empty is_absolute join lexical
abspath p cwd = if is_empty p then cwd else lexical (if is_absolute p then p else join cwd p)

-- `min` and `max` of strings that are not none: `min` keeps the first of equal ones.
unfoldable pub min_text : Text → List Text → Text
unfolding text_leb
min_text m [] = m
min_text m (s ∷ ss) = min_text (if text_leb m s then m else s) ss

unfoldable pub max_text : Text → List Text → Text
unfolding text_leb
max_text m [] = m
max_text m (s ∷ ss) = max_text (if text_leb m s then s else m) ss

-- The characters that two texts begin with alike.
unfoldable pub common : Text → Text → Text
common [] t = []
common (c ∷ s) [] = []
common (c ∷ s) (d ∷ t) = let rest = c ∷ common s t in if c == d then rest else []

unfoldable pub commonprefix : List Text → Text
unfolding min_text max_text common
commonprefix [] = []
commonprefix (s ∷ ss) = common (min_text s ss) (max_text s ss)

-- The loop over the ancestors, from the longest, on the number of parts that are tried.
unfoldable pub try_ancestors : (Text → Bool) → List Text → Text → ℕ → Text
unfolding join_with
try_ancestors exists parts base zero = base
try_ancestors exists parts base (suc i) =
    let newbase = join_with slash (take (suc i) parts) in
    let rest = try_ancestors exists parts base i in
    if exists (newbase ++ codes "/.redo") then newbase else rest

unfoldable pub target_dir : Text → Text → Text
unfolding abspath posix_dirname
target_dir cwd t = abspath (posix_dirname t) cwd

abbrev pub use_targets : List Text → List Text
use_targets [] = codes "all" ∷ []
use_targets (t ∷ ts) = t ∷ ts

unfoldable pub dirs_of : Text → List Text → List Text
unfolding target_dir
dirs_of cwd targets = map (target_dir cwd) (use_targets targets) ++ (cwd ∷ [])

abbrev pub one_less : ℕ → ℕ
one_less zero = zero
one_less (suc n) = n

unfoldable pub find_base : (Text → Bool) → Text → List Text → Text
unfolding commonprefix dirs_of try_ancestors split_on
find_base exists cwd targets =
    let base = commonprefix (dirs_of cwd targets) in
    let parts = split_on slash base in try_ancestors exists parts base (one_less (length parts))
