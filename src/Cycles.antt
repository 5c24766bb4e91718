-- ===== src/Cycles.antt =====
-- redo_core/src/cycles.rs. The variable REDO_CYCLES is a text that each call takes; `order` is the
-- order in which a HashSet is iterated, which the standard library leaves open.
pub mod Laws
use mathlib.Core.Bool.{not}
use redo.Base.{
  ℕ, Bool, true, false, ◌||◌, List, [], ◌∷◌, Text, text_eq, is_empty, split_on, join_with,
  to_string, if◌then◌else◌, Result, ok, err, Error, cyclic,
}

abbrev pub colon : ℕ
colon = b':'

-- `contains` of a set of texts.
unfoldable pub mem_text : Text → List Text → Bool
unfolding text_eq
mem_text w [] = false
mem_text w (v ∷ vs) = text_eq w v || mem_text w vs

-- `insert` into a set.
unfoldable pub insert_text : Text → List Text → List Text
unfolding mem_text
insert_text w ws = if mem_text w ws then ws else w ∷ ws

-- `filter(|s| !s.is_empty())` and `collect` into a set.
unfoldable pub collect : List Text → List Text
unfolding insert_text is_empty
collect [] = []
collect (w ∷ ws) = let rest = collect ws in if is_empty w then rest else insert_text w rest

unfoldable pub get : Text → List Text
unfolding collect split_on
get var = collect (split_on colon var)

module _ (order : List Text → List Text) where
  -- The new value of the variable.
  unfoldable pub add : Text → ℕ → Text
  unfolding get insert_text join_with to_string
  add var fid = join_with colon (order (insert_text (to_string fid) (get var)))

unfoldable pub check : Text → ℕ → Result (Unit {0})
unfolding get mem_text to_string
check var fid = if mem_text (to_string fid) (get var) then err cyclic else ok tt
