-- ===== src/Builder/Trace.antt =====
-- Traces of what a .do file reads, in redo_core/src/builder.rs: `parse_nul_separated_strings`,
-- `read_deps_out0` and `evaluate_strict_readtrace`. A file is the list of its bytes. A hash set of
-- paths is a list without doubles; its order of iteration does not show in the sorted result.
pub mod Laws
pub mod Verdict
use mathlib.Core.List.{foldl}
use redo.Base.{
  is_whitespace, ℕ, Bool, true, false, not, ◌&&◌, ◌||◌, List, [], ◌∷◌, ◌++◌, map, Text, text_eq,
  codes, is_empty, split_on, Option, none, some, ◌==◌, ltb, leb, if◌then◌else◌, strip_prefix,
  or_else, text_leb,
}
use redo.Paths.Components.{
  Component, root_dir, cur_dir, parent_dir, normal, components, is_absolute, join, print_components,
}
use redo.Paths.Normalize.{normalize_path}
use redo.Store.Rows.{File, always, is_some}

-- The copy of `normalize_path` that builder.rs has.
unfoldable pub normalize_path_lex : Text → Text
unfolding normalize_path
normalize_path_lex p = normalize_path p

-- Equality of paths and `Path::starts_with` compare components.
unfoldable pub component_eq : Component → Component → Bool
unfolding text_eq
component_eq root_dir root_dir = true
component_eq cur_dir cur_dir = true
component_eq parent_dir parent_dir = true
component_eq (normal s) (normal t) = text_eq s t
component_eq _ _ = false

-- What is left of a list of components behind a prefix.
unfoldable pub strip_components : List Component → List Component → Option (List Component)
unfolding component_eq
strip_components [] cs = some cs
strip_components (b ∷ bs) [] = none
strip_components (b ∷ bs) (c ∷ cs) =
    let rest = strip_components bs cs in if component_eq b c then rest else none

unfoldable pub starts_with : Text → Text → Bool
unfolding strip_components components
starts_with path base = is_some (strip_components (components base) (components path))

unfoldable pub components_eq : List Component → List Component → Bool
unfolding component_eq
components_eq [] [] = true
components_eq [] (d ∷ ds) = false
components_eq (c ∷ cs) [] = false
components_eq (c ∷ cs) (d ∷ ds) = component_eq c d && components_eq cs ds

unfoldable pub path_eq : Text → Text → Bool
unfolding components_eq components
path_eq p q = components_eq (components p) (components q)

unfoldable pub mem_path : Text → List Text → Bool
unfolding path_eq
mem_path p [] = false
mem_path p (q ∷ qs) = path_eq p q || mem_path p qs

unfoldable pub insert_path : Text → List Text → List Text
unfolding mem_path
insert_path p ps = if mem_path p ps then ps else ps ++ (p ∷ [])

-- `String::from_utf8_lossy` is the standard library's.
module _ (from_utf8_lossy : List ℕ → Text) where
  unfoldable pub decode_entries : List (List ℕ) → List Text
  unfolding is_empty
  decode_entries [] = []
  decode_entries (e ∷ es) =
      let rest = decode_entries es in if is_empty e then rest else from_utf8_lossy e ∷ rest

  unfoldable pub parse_nul_separated_strings : List ℕ → List Text
  unfolding decode_entries split_on
  parse_nul_separated_strings bytes = decode_entries (split_on 0 bytes)

-- The first character of `trim`, or '?'.
unfoldable pub first_char : Text → ℕ
first_char [] = b'?'
first_char (c ∷ s) = let rest = first_char s in if is_whitespace c then rest else c

-- The loop of `read_deps_out0`, over two entries at a time.
unfoldable pub read_deps : List Text → List (ℕ × Text)
unfolding first_char
read_deps [] = []
read_deps (m ∷ []) = []
read_deps (m ∷ d ∷ parts) =
    let rest = read_deps parts in
    let mode = first_char m in if mode == b'm' || mode == b'c' then (mode, d) ∷ rest else rest

unfoldable pub redo_dir : Text → Text
unfolding join normalize_path_lex
redo_dir base = normalize_path_lex (join base (codes ".redo"))

-- The declared dependencies that a read may touch.
unfoldable pub allow : Text → List Text → ℕ × File → List Text
unfolding text_eq starts_with insert_path join normalize_path_lex redo_dir
allow base allowed (mode, dep) =
    let abs = normalize_path_lex (join base dep.name) in
    if text_eq dep.name always
    then allowed
    else if starts_with abs (redo_dir base)
    then allowed
    else insert_path abs allowed

unfoldable pub allowed_paths : Text → List (ℕ × File) → List Text
unfolding allow
allowed_paths base declared = foldl (allow base) [] declared

-- The variables of the loop over the entries.
pub record Trace : Type 0 where
  pub trace_ok : Bool
  pub trace_reason : Text
  pub observed : List Text

-- An entry that tells of a trace that is not complete.
unfoldable pub spoil : Text → Trace → Trace
unfolding is_empty
spoil reason t = record t {
  trace_ok = false;
  trace_reason = if is_empty t.trace_reason then reason else t.trace_reason;
}

-- The reason of an entry that is no path: the three tests of the prefixes, in their order.
unfoldable pub reason_of : Text → Option Text
unfolding strip_prefix
reason_of e = or_else (strip_prefix (codes "TRACE_UNAVAILABLE:") e) (
    or_else (strip_prefix (codes "TRACE_ERROR:") e)
      (if is_some (strip_prefix (codes "UNRESOLVED:") e) then some (codes "unresolved") else none))

unfoldable pub absolute_of : Text → Text → Text
unfolding is_absolute join normalize_path_lex
absolute_of base e =
    if is_absolute e then normalize_path_lex e else normalize_path_lex (join base e)

unfoldable pub observe : Text → Trace → Text → Trace
unfolding is_empty reason_of spoil absolute_of starts_with insert_path redo_dir
observe base t e =
    let abs = absolute_of base e in
    if is_empty e then t else elim (reason_of e) [
      | some reason ↦ spoil reason t
      | none ↦
          if starts_with abs (redo_dir base)
          then t
          else if starts_with abs base
          then record t { observed = insert_path abs t.observed }
          else t
    ]

-- `sort` with `dedup`, in the order of texts.
unfoldable pub insert_sorted : Text → List Text → List Text
unfolding text_leb
insert_sorted v [] = v ∷ []
insert_sorted v (w ∷ ws) =
    let rest = insert_sorted v ws in if text_leb v w then v ∷ w ∷ ws else w ∷ rest

unfoldable pub sort : List Text → List Text
unfolding insert_sorted
sort [] = []
sort (w ∷ ws) = insert_sorted w (sort ws)

unfoldable pub dedup : List Text → List Text
unfolding text_eq
dedup [] = []
dedup (w ∷ []) = w ∷ []
dedup (w ∷ v ∷ ws) = let rest = dedup (v ∷ ws) in if text_eq w v then rest else w ∷ rest

-- The path relative to the base.
unfoldable pub relative_to : Text → Text → Text
unfolding strip_components components print_components
relative_to base p = elim (strip_components (components base) (components p)) [
  | none ↦ p
  | some cs ↦ print_components cs
]

unfoldable pub undeclared : Text → List Text → List Text → List Text
unfolding mem_path relative_to
undeclared base allowed [] = []
undeclared base allowed (p ∷ ps) =
    let rest = undeclared base allowed ps in
    if mem_path p allowed then rest else relative_to base p ∷ rest

pub record StrictReadTraceResult : Type 0 where
  pub trace_ok : Bool
  pub trace_reason : Text
  pub violations : List Text

unfoldable pub evaluate_strict_readtrace :
    Text → List (ℕ × File) → List Text → StrictReadTraceResult
unfolding observe undeclared sort dedup allowed_paths
evaluate_strict_readtrace base declared entries =
    let start : Trace = record { trace_ok = true; trace_reason = []; observed = [] } in
    let t = foldl (observe base) start entries in
    record {
      trace_ok = t.trace_ok;
      trace_reason = t.trace_reason;
      violations = dedup (sort (undeclared base (allowed_paths base declared) t.observed));
    }
