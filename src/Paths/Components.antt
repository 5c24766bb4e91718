-- ===== src/Paths/Components.antt =====
-- std::path as the source uses it: `Path::components`, `join` and `starts_with` on Unix, over texts.
use mathlib.Core.List.{foldl}
use redo.Base.{
  ℕ, Bool, false, ◌||◌, List, [], ◌∷◌, ◌++◌, Text, text_eq, split_on, is_empty, ◌==◌, if◌then◌else◌,
  map, Option, none, some,
}

abbrev pub slash : ℕ
slash = b'/'

abbrev pub dot : Text
dot = b'.' ∷ []

abbrev pub dotdot : Text
dotdot = b'.' ∷ b'.' ∷ []

pub data Component : Type 0 where
  root_dir cur_dir parent_dir : Component
  normal : Text → Component

-- The pieces behind the first: empty ones and `.` are skipped.
unfoldable pub body : List Text → List Component
unfolding text_eq is_empty
body [] = []
body (w ∷ ws) =
    let rest = body ws in
    if is_empty w || text_eq w dot
    then rest
    else if text_eq w dotdot
    then parent_dir ∷ rest
    else normal w ∷ rest

unfoldable pub is_absolute : Text → Bool
is_absolute [] = false
is_absolute (c ∷ s) = c == slash

-- A leading `.` of a relative path is kept.
unfoldable pub relative_components : List Text → List Component
unfolding body text_eq
relative_components [] = []
relative_components (w ∷ ws) = if text_eq w dot then cur_dir ∷ body ws else body (w ∷ ws)

unfoldable pub components : Text → List Component
unfolding body relative_components is_absolute split_on
components s =
    if is_absolute s
    then root_dir ∷ body (split_on slash s)
    else relative_components (split_on slash s)

unfoldable pub ends_in_slash : Text → Bool
ends_in_slash [] = false
ends_in_slash (c ∷ []) = c == slash
ends_in_slash (c ∷ d ∷ s) = ends_in_slash (d ∷ s)

-- `base.join(rel)`
unfoldable pub join : Text → Text → Text
unfolding is_absolute ends_in_slash is_empty
join base rel =
    if is_absolute rel
    then rel
    else if is_empty base || ends_in_slash base
    then base ++ rel
    else base ++ (slash ∷ rel)

-- The text of a list of components. Doubled separators and inner `.` of the path that they come
-- from are gone.
unfoldable pub print_component : Component → Text
print_component root_dir = slash ∷ []
print_component cur_dir = dot
print_component parent_dir = dotdot
print_component (normal s) = s

unfoldable pub print_components : List Component → Text
unfolding print_component join
print_components cs = foldl join [] (map print_component cs)

unfoldable pub last? {ℓ} : {A : Type ℓ} → List A → Option A
last? [] = none
last? (x ∷ []) = some x
last? (x ∷ y ∷ xs) = last? (y ∷ xs)

unfoldable pub drop_last {ℓ} : {A : Type ℓ} → List A → List A
drop_last [] = []
drop_last (x ∷ []) = []
drop_last (x ∷ y ∷ xs) = x ∷ drop_last (y ∷ xs)

-- `Path::parent`: none of the empty path and of the root.
unfoldable pub parent : Text → Option Text
unfolding components print_components last? drop_last
parent path = elim (last? (components path)) [
  | none ↦ none
  | some root_dir ↦ none
  | some c ↦ some (print_components (drop_last (components path)))
]

-- `Path::file_name`
unfoldable pub file_name : Text → Option Text
unfolding components last?
file_name path = elim (last? (components path)) [ some (normal s) ↦ some s | _ ↦ none ]
