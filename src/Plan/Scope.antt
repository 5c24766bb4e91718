-- ===== src/Plan/Scope.antt =====
-- `load_plan_targets`, `compute_plan_scope` and `deps_from_dofile` of bins/src/redo.rs. A hash set of
-- texts is a list without doubles, the oldest entry first.
pub mod Laws
pub mod Once
pub mod Reach
use mathlib.Core.List.{foldl}
use redo.Base.{
  ℕ, zero, suc, Bool, true, false, not, ◌||◌, List, [], ◌∷◌, ◌++◌, map, Text, codes, text_eq,
  is_empty, Option, none, some, ◌==◌, if◌then◌else◌, strip_prefix, split_on, trim, trim_start,
  trim_end_by, after, length, contains, Result, ok, err, Error, io, out_of_fuel,
}
use redo.Paths.Components.{Component, components, is_absolute, join, print_components}
use redo.Builder.Trace.{strip_components, sort, dedup}
use redo.Store.Rows.{is_some}
use redo.Plan.Words.{parse_redo_ifchange_deps}

-- `contains` and `insert` of a set.
unfoldable pub in_set : List Text → Text → Bool
unfolding text_eq
in_set [] t = false
in_set (s ∷ ss) t = text_eq s t || in_set ss t

unfoldable pub add_text : List Text → Text → List Text
unfolding in_set
add_text ss t = if in_set ss t then ss else ss ++ (t ∷ [])

abbrev pub print_rest : Option (List Component) → Option Text
print_rest none = none
print_rest (some cs) = some (print_components cs)

-- `strip_prefix(base)` of an absolute path; a relative path is kept.
unfoldable pub under_base : Text → Text → Option Text
unfolding is_absolute components strip_components print_components
under_base base s =
    if is_absolute s then print_rest (strip_components (components base) (components s)) else some s

-- One line of the manifest.
unfoldable pub plan_line : Text → List Text → Text → List Text
unfolding trim trim_end_by is_empty strip_prefix under_base add_text
plan_line base out line =
    let s = trim (trim_end_by (λ c. c == 10 || c == 13) line) in
    if is_empty s || is_some (strip_prefix (codes "#") s)
    then out
    else add_text out (elim (under_base base s) [ none ↦ s | some rel ↦ rel ])

-- None is a file that cannot be opened or read.
unfoldable pub load_plan_targets : Text → Option Text → Result (List Text)
unfolding plan_line split_on
load_plan_targets base none = err io
load_plan_targets base (some content) = ok (foldl (plan_line base) [] (split_on 10 content))

-- The name of a root in the plan, if it is there.
unfoldable pub root_key : Text → List Text → Text → Option Text
unfolding trim is_empty under_base in_set
root_key base plan_all r =
    let s = trim r in
    if is_empty s then none else elim (under_base base s) [
      | none ↦ none
      | some rel ↦ if in_set plan_all rel then some rel else none
    ]

abbrev pub cons_some : Option Text → List Text → List Text
cons_some none ts = ts
cons_some (some t) ts = t ∷ ts

unfoldable pub root_keys : Text → List Text → List Text → List Text
unfolding root_key
root_keys base plan_all [] = []
root_keys base plan_all (r ∷ rs) = cons_some (root_key base plan_all r) (root_keys base plan_all rs)

-- The variables of the search: the set that is built, the queue, and the dependencies that are
-- known already.
pub record Search : Type 0 where
  pub scope : List Text
  pub queue : List Text
  pub adj : List (Text × List Text)

unfoldable pub known_deps : Text → List (Text × List Text) → Option (List Text)
unfolding text_eq
known_deps k [] = none
known_deps k ((j, v) ∷ m) = if text_eq j k then some v else known_deps k m

-- `if scope.insert(k) { q.push_back(k) }`
unfoldable pub enqueue : Search → Text → Search
unfolding in_set
enqueue s k =
    if in_set s.scope k
    then s
    else record s { scope = s.scope ++ (k ∷ []); queue = s.queue ++ (k ∷ []) }

-- `if !plan_all.contains(&d) { continue; }`, and the insertion.
unfoldable pub offer : List Text → Search → Text → Search
unfolding in_set enqueue
offer plan_all s d = if in_set plan_all d then enqueue s d else s

-- The dependencies of a text: the ones that are known, or the ones that are read and kept then.
unfoldable pub neighbours :
    (Text → List Text) → Text → Search → Option (List Text) → List Text × Search
neighbours deps_of k s (some v) = (v, s)
neighbours deps_of k s none = let v = deps_of k in (v, record s { adj = (k, v) ∷ s.adj })

module _ (plan_all : List Text) (deps_of : Text → List Text) where
  unfoldable pub expand : Text → Search → Search
  unfolding neighbours known_deps offer
  expand k s =
      let (v, t) = neighbours deps_of k s (known_deps k s.adj) in foldl (offer plan_all) t v

  unfoldable pub pop : (Search → Option (List Text)) → Search → List Text → Option (List Text)
  unfolding expand
  pop more s [] = some s.scope
  pop more s (k ∷ q) = more (expand k (record s { queue = q }))

  unfoldable pub search_scope : ℕ → Search → Option (List Text)
  unfolding pop
  search_scope zero s = none
  search_scope (suc f) s = pop (search_scope f) s s.queue

  -- The search from the names of the roots, with fuel for each entry of the plan and one more.
  unfoldable pub scope_of : List Text → Option (List Text)
  unfolding search_scope enqueue
  scope_of keys =
      search_scope (suc (length plan_all))
        (foldl enqueue (record { scope = []; queue = []; adj = [] }) keys)

-- What `read_line` gives until the end of a file or the first error: none is an error.
abbrev pub LineReads : Type 0
LineReads = List (Option Text)

abbrev pub is_generated : Option Text → Bool
is_generated none = true
is_generated (some first) = is_some (after (codes "Generated by CMake Redo generator") first)

module _ (utf8 : Text → List ℕ) (base : Text) (plan_all : List Text) where
  -- One name of a line: a name with a shell expansion is not followed.
  unfoldable pub plan_dep : Text → Option Text
  unfolding under_base in_set
  plan_dep d = if contains d b'$' || contains d b'`' then none else elim (under_base base d) [
    | none ↦ none
    | some rel ↦ if in_set plan_all rel then some rel else none
  ]

  unfoldable pub plan_deps : List Text → List Text
  unfolding plan_dep
  plan_deps [] = []
  plan_deps (d ∷ ds) = cons_some (plan_dep d) (plan_deps ds)

  abbrev pub deps_or_none : Option (List Text) → List Text
  deps_or_none none = []
  deps_or_none (some ds) = plan_deps ds

  unfoldable pub line_deps : Text → List Text
  unfolding trim_start strip_prefix parse_redo_ifchange_deps plan_deps
  line_deps line =
      let s = trim_start line in
      if is_some (strip_prefix (codes "redo-ifchange") s)
      then deps_or_none (parse_redo_ifchange_deps utf8 s)
      else []

  unfoldable pub deps_of_lines : LineReads → List Text
  unfolding line_deps
  deps_of_lines [] = []
  deps_of_lines (none ∷ rs) = []
  deps_of_lines (some line ∷ rs) = line_deps line ++ deps_of_lines rs

  unfoldable pub deps_of_file : Option LineReads → List Text
  unfolding deps_of_lines sort dedup after
  deps_of_file none = []
  deps_of_file (some []) = []
  deps_of_file (some (first ∷ rs)) =
      if is_generated first then dedup (sort (deps_of_lines rs)) else []

  -- `open_lines` opens a file and reads its lines.
  unfoldable pub deps_from_dofile : (Text → Option LineReads) → Text → List Text
  unfolding deps_of_file join
  deps_from_dofile open_lines output_rel =
      deps_of_file (open_lines (join base (output_rel ++ codes ".do")))

  unfoldable pub compute_plan_scope : (Text → Option LineReads) → List Text → Option (List Text)
  unfolding root_keys is_empty scope_of deps_from_dofile
  compute_plan_scope open_lines roots =
      let keys = root_keys base plan_all roots in
      if is_empty keys then some [] else scope_of plan_all (deps_from_dofile open_lines) keys
