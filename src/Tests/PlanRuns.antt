-- ===== src/Tests/PlanRuns.antt =====
-- bins/src/redo.rs
use redo.Base.{
  All, ℕ, ◌≡◌, refl, ◌↔◌, List, [], ◌∷◌, ◌++◌, Text, codes, text_eq, Option, none, some, ok,
  if◌then◌else◌, Bool-cases, inl, inr, strip_prefix,
}
use redo.Store.Tables.{row_by_id, row_by_name}
use redo.Plan.Words.{
  parse_redo_ifchange_deps, split_words, next_word, scan_word, skip_ws, drop_options,
}
use redo.Plan.Words.Laws.{IsName, print_line, parse_redo_ifchange_deps-print_line}
use redo.Plan.Scope.{LineReads, load_plan_targets, root_keys, deps_from_dofile, compute_plan_scope}
use redo.Plan.Scope.Laws.{Has}
use redo.Plan.Scope.Reach.{Reaches, compute_plan_scope-Finds}
use redo.Plan.Count.{compute_build_plan, default_roots}
use redo.Plan.Scope.Once.{Once}
use redo.Plan.Count.Laws.{HasKeys, IsOrder, Plans, compute_build_plan-Plans}
use redo.Tests.Sample.{world, state, out_row, in_row, gone_row}

abbrev bytes : Text → List ℕ
bytes s = s

-- Quotes, an escaped space, an option with its file, and a comment.
words :
    parse_redo_ifchange_deps bytes (codes "  redo-ifchange 'a b' \"c\" --from-file x d\\ e -- # f")
    ≡ some (codes "a b" ∷ codes "c" ∷ codes "d e" ∷ [])
unfolding parse_redo_ifchange_deps split_words next_word scan_word drop_options skip_ws
words = refl

abbrev names : List Text
names = codes "a\"b" ∷ codes "c d" ∷ []

names_are : All IsName names
unfolding strip_prefix
names_are = (
  record { some_text = λ e. cc; no_option = refl },
  (record { some_text = λ e. cc; no_option = refl }, tt),
)

parse_redo_ifchange_deps-print_line_example :
    parse_redo_ifchange_deps bytes (print_line names) ≡ some names
parse_redo_ifchange_deps-print_line_example =
    parse_redo_ifchange_deps-print_line bytes names names_are refl

-- The script of `out` asks for `in` and for a file that is not in the plan.
unfoldable scripts : Text → Option LineReads
unfolding text_eq
scripts path =
    if text_eq path (codes "/p/out.do")
    then some (
        some (codes "# Generated by CMake Redo generator")
        ∷ some (codes "redo-ifchange in other")
        ∷ [])
    else none

abbrev plan : List Text
plan = codes "out" ∷ codes "in" ∷ []

compute_plan_scope-Finds_example :
    (scope : List Text) × (compute_plan_scope bytes (codes "/p") plan scripts (codes "out" ∷ [])
      ≡ some scope)
    × ((k : Text)
        → Has scope k
          ↔ Reaches plan
              (deps_from_dofile bytes (codes "/p") plan scripts)
              (root_keys (codes "/p") plan (codes "out" ∷ []))
              k)
compute_plan_scope-Finds_example =
    compute_plan_scope-Finds bytes (codes "/p") plan scripts (codes "out" ∷ [])

scope_is : compute_plan_scope bytes (codes "/p") plan scripts (codes "out" ∷ []) ≡ some plan
unfolding compute_plan_scope scripts split_words next_word scan_word drop_options
scope_is = refl

state-HasKeys : HasKeys world state
unfolding row_by_name row_by_id
state-HasKeys n r h = elim (Bool-cases (text_eq (codes "out") n)) [
  | inl one ↦ let e : out_row ≡ r = cc (rw (one, row_by_name) at h) in rw (← e) refl
  | inr a ↦ elim (Bool-cases (text_eq (codes "in") n)) [
    | inl two ↦ let e : in_row ≡ r = cc (rw (a, two, row_by_name) at h) in rw (← e) refl
    | inr b ↦ elim (Bool-cases (text_eq (codes "gone") n)) [
      | inl three ↦ let e : gone_row ≡ r = cc (rw (a, b, three, row_by_name) at h) in rw (← e) refl
      | inr c ↦ cc (rw (a, b, c, row_by_name) at h)
    ]
  ]
]

abbrev same : List Text → List Text
same ts = ts

same-IsOrder : IsOrder world state same
same-IsOrder = record {
  same_length = λ ts. refl;
  same_texts = λ ts t. ((λ h. h), (λ h. h));
  each_once = λ ts h. h;
}

abbrev manifest : Option Text
manifest = some (codes "# generated" ++ (10 ∷ codes "/p/out" ++ (10 ∷ codes "in" ++ (10 ∷ []))))

manifest_is : load_plan_targets (codes "/p") manifest ≡ ok plan
unfolding load_plan_targets
manifest_is = refl

compute_build_plan-Plans_example :
    (scope : List Text) × ((k : Text)
      → Has (same scope) k
        ↔ Reaches plan
            (deps_from_dofile bytes (codes "/p") plan scripts)
            (root_keys (codes "/p") plan (default_roots world (codes "out" ∷ [])))
            k)
    × Once (same scope)
    × Plans world state
        (same scope)
        (compute_build_plan world bytes scripts state same (some manifest) (codes "out" ∷ []))
compute_build_plan-Plans_example =
    compute_build_plan-Plans world state bytes scripts same manifest (codes "out" ∷ [])
      (codes "out") (codes "in" ∷ []) state-HasKeys same-IsOrder manifest_is
