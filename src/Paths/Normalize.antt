-- ===== src/Paths/Normalize.antt =====
-- The lexical normalisations of redo_core/src/paths.rs and redo_core/src/state.rs. The vector
-- `parts` is kept with its last entry first.
use mathlib.Core.List.{reverse, foldl}
use redo.Base.{List, [], ◌∷◌, Text, join_with, is_empty, if◌then◌else◌}
use redo.Paths.Components.{
  slash, Component, root_dir, cur_dir, parent_dir, normal, components, join,
}

-- `if parts.len() > 1 { parts.pop(); }`
unfoldable pub pop_part : List Text → List Text
pop_part [] = []
pop_part (p ∷ []) = p ∷ []
pop_part (p ∷ q ∷ ps) = q ∷ ps

-- The match of the loop of `normalize_join`. `root` is what stands for the root directory.
unfoldable pub push_component : Text → List Text → Component → List Text
unfolding pop_part
push_component root parts root_dir = root ∷ []
push_component root parts cur_dir = parts
push_component root parts parent_dir = pop_part parts
push_component root parts (normal s) = s ∷ parts

unfoldable pub parts_of : Text → Text → List Text
unfolding push_component components
parts_of root path = reverse (foldl (push_component root) [] (components path))

-- The text of `parts` in `normalize_join`, where "" stands for the root.
unfoldable pub print_parts : List Text → Text
unfolding join_with is_empty
print_parts [] = slash ∷ []
print_parts (p ∷ ps) = if is_empty p then slash ∷ join_with slash ps else join_with slash (p ∷ ps)

unfoldable pub normalize_join : Text → Text → Text
unfolding print_parts parts_of join
normalize_join base rel = print_parts (parts_of [] (join base rel))

-- `normalize_path` of state.rs, where "/" stands for the root: each part is pushed on a PathBuf.
unfoldable pub normalize_path : Text → Text
unfolding parts_of join
normalize_path path = foldl join [] (parts_of (slash ∷ []) path)
