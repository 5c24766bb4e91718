-- ===== src/Plan/Scope/Once.antt =====
-- The scope of a plan is a set: what the search keeps of that.
use mathlib.Core.List.{foldl}
use redo.Base.{
  ℕ, zero, suc, ◌≡◌, refl, false, List, [], ◌∷◌, ◌++◌, Text, text_eq_iff, arith, some, none,
  is_empty, inl, inr, Bool-cases, Option, sym, subst, length,
}
use redo.Plan.Scope.{
  in_set, Search, known_deps, enqueue, offer, neighbours, expand, pop, search_scope, scope_of,
  compute_plan_scope, root_keys, deps_from_dofile, LineReads,
}
use redo.Plan.Scope.Laws.{in_set-last}

-- Each text stands in a list once.
abbrev pub Once : List Text → Type 0
Once [] = Unit
Once (t ∷ ts) = (in_set ts t ≡ false) × Once ts

Once-last : (ts : List Text) (k : Text) → in_set ts k ≡ false → Once ts → Once (ts ++ (k ∷ []))
unfolding in_set
Once-last [] k new o = (refl, tt)
Once-last (t ∷ ts) k new o = (
  ground (arith, in_set-last ts k t, text_eq_iff k t, text_eq_iff t k, new, o.0),
  Once-last ts k (ground (arith, new)) o.1,
)

enqueue-Once : (s : Search) (k : Text) → Once s.scope → Once (enqueue s k).scope
unfolding enqueue
enqueue-Once s k o = elim (Bool-cases (in_set s.scope k)) [
  | inl old ↦ rw old o
  | inr new ↦ rw new (Once-last s.scope k new o)
]

offer-Once :
    (plan_all : List Text) (s : Search) (d : Text) → Once s.scope → Once (offer plan_all s d).scope
unfolding offer
offer-Once plan_all s d o = elim (Bool-cases (in_set plan_all d)) [
  | inl there ↦ rw there (enqueue-Once s d o)
  | inr other ↦ rw other o
]

-- A round that keeps the scope a set does so any number of times.
foldl-Once :
    (f : Search → Text → Search)
    → ((s : Search) (d : Text) → Once s.scope → Once (f s d).scope)
    → (ds : List Text) (s : Search) → Once s.scope
    → Once (foldl f s ds).scope
foldl-Once f keeps [] s o = o
foldl-Once f keeps (d ∷ ds) s o = foldl-Once f keeps ds (f s d) (keeps s d o)

module _ (plan_all : List Text) (deps_of : Text → List Text) where
  neighbours-Once :
      (k : Text) (s : Search) (o : Option (List Text))
      → (neighbours deps_of k s o).1.scope ≡ s.scope
  unfolding neighbours
  neighbours-Once k s none = refl
  neighbours-Once k s (some v) = refl

  expand-Once : (k : Text) (s : Search) → Once s.scope → Once (expand plan_all deps_of k s).scope
  unfolding expand
  expand-Once k s o =
      foldl-Once (offer plan_all) (offer-Once plan_all)
        (neighbours deps_of k s (known_deps k s.adj)).0
        (neighbours deps_of k s (known_deps k s.adj)).1
        (subst Once (sym (neighbours-Once k s (known_deps k s.adj))) o)

  pop-Once :
      (more : Search → Option (List Text)) (s : Search) (q scope : List Text)
      → ((u : Search) → Once u.scope → more u ≡ some scope → Once scope)
      → Once s.scope
      → pop plan_all deps_of more s q ≡ some scope
      → Once scope
  unfolding pop
  pop-Once more s [] scope keeps o h = let same : s.scope ≡ scope = cc in subst Once same o
  pop-Once more s (k ∷ q) scope keeps o h =
      keeps (expand plan_all deps_of k (record s { queue = q }))
        (expand-Once k (record s { queue = q }) o) h

  search_scope-Once :
      (n : ℕ) (scope : List Text) (s : Search)
      → Once s.scope
      → search_scope plan_all deps_of n s ≡ some scope
      → Once scope
  unfolding search_scope
  search_scope-Once zero scope s o h = cc
  search_scope-Once (suc n) scope s o h =
      pop-Once (search_scope plan_all deps_of n) s s.queue scope (search_scope-Once n scope) o h

  scope_of-Once :
      (keys scope : List Text) → scope_of plan_all deps_of keys ≡ some scope → Once scope
  unfolding scope_of
  scope_of-Once keys scope h =
      search_scope-Once (suc (length plan_all)) scope
        (foldl enqueue (record { scope = []; queue = []; adj = [] }) keys)
        (foldl-Once enqueue enqueue-Once keys (record { scope = []; queue = []; adj = [] }) tt) h

pub compute_plan_scope-Once :
    (utf8 : Text → List ℕ) (base : Text) (plan_all : List Text)
    (open_lines : Text → Option LineReads) (roots scope : List Text)
    → compute_plan_scope utf8 base plan_all open_lines roots ≡ some scope
    → Once scope
unfolding compute_plan_scope
compute_plan_scope-Once utf8 base plan_all open_lines roots scope h =
    elim (Bool-cases (is_empty (root_keys base plan_all roots))) [
      | inl none_there ↦
          let same : [] ≡ scope = cc (rw (none_there, compute_plan_scope) at h) in
          subst Once same tt
      | inr some_there ↦
          scope_of-Once plan_all (deps_from_dofile utf8 base plan_all open_lines)
            (root_keys base plan_all roots) scope (rw (some_there, compute_plan_scope) at h)
    ]
