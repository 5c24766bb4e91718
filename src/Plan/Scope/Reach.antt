-- ===== src/Plan/Scope/Reach.antt =====
-- What `compute_plan_scope` finds is what can be reached from the roots, and its search ends.
use mathlib.Core.List.{foldl}
use redo.Base.{
  ℕ, zero, suc, ◌+◌, ◌≤◌, ◌<◌, ◌↔◌, List, [], ◌∷◌, Text, text_eq_iff, text_eq_refl, Option, none,
  some, ◌≡◌, refl, sym, subst, ap, text_eq, ◌⊎◌, inl, inr, arith, length, All, Bool-cases,
  Option-cases, if◌then◌else◌, is_empty, trim,
}
use redo.Plan.Scope.{
  in_set, Search, known_deps, enqueue, offer, neighbours, expand, pop, search_scope, scope_of,
  root_key, root_keys, deps_from_dofile, compute_plan_scope, LineReads, under_base,
}
use redo.Plan.Scope.Laws.{Has, unseen, unseen_nil, Grew, offers-Grew}

queue-cases : (q : List Text) → (q ≡ []) ⊎ ((k : Text) × (r : List Text) × (q ≡ k ∷ r))
queue-cases [] = inl refl
queue-cases (k ∷ r) = inr (k, r, refl)

All-Has : (plan_all ks : List Text) (k : Text) → All (Has plan_all) ks → Has ks k → Has plan_all k
unfolding in_set
All-Has plan_all [] k h t = cc
All-Has plan_all (j ∷ ks) k h t = elim (Bool-cases (text_eq j k)) [
  | inl same ↦ rw (← (text_eq_iff j k).0 same) h.0
  | inr other ↦ All-Has plan_all ks k h.1 (ground (arith, other, t))
]

module _ (plan_all : List Text) (deps_of : Text → List Text) (keys : List Text) where
  -- The roots, and the dependencies of what is reached, as far as they are in the plan.
  pub data Reaches : Text → Type 0 where
    root : {k : Text} → Has keys k → Reaches k
    step : {k d : Text} → Reaches k → Has plan_all d → Has (deps_of k) d → Reaches d

  abbrev Learned : List (Text × List Text) → Type 0
  Learned m = (k : Text) → (known_deps k m ≡ none) ⊎ (known_deps k m ≡ some (deps_of k))

  record Inv (s : Search) : Type 0 where
    sound : (k : Text) → Has s.scope k → Reaches k
    roots : (k : Text) → Has keys k → Has s.scope k
    waiting : (k : Text) → Has s.queue k → Has s.scope k
    closed :
        (k d : Text)
        → Has s.scope k
        → Has plan_all d
        → Has (deps_of k) d
        → Has s.queue k ⊎ Has s.scope d
    learned : Learned s.adj

  abbrev with_adj : Search → List (Text × List Text) → Search
  with_adj s m = record s { adj = m }

  -- The dependencies are the ones of the file, whether they were known or not.
  neighbours-Learned :
      (k : Text) (s : Search)
      → Learned s.adj
      → (m : List (Text × List Text)) × Learned m
        × (neighbours deps_of k s (known_deps k s.adj) ≡ (deps_of k, with_adj s m))
  unfolding neighbours known_deps
  neighbours-Learned k s h = elim (h k) [
    | inl new ↦ (
      (k, deps_of k) ∷ s.adj,
      (λ j. elim (Bool-cases (text_eq k j)) [
        | inl same ↦ rw same (inr (ap (λ (t : Text). some (deps_of t)) ((text_eq_iff k j).0 same)))
        | inr other ↦ rw other (h j)
      ]),
      rw new refl,
    )
    | inr old ↦ (s.adj, h, rw old refl)
  ]

  popped : (k : Text) (q : List Text) (j : Text) → Has (k ∷ q) j ↔ ((k ≡ j) ⊎ Has q j)
  unfolding in_set
  popped k q j = ((λ h. ground (arith, text_eq_iff k j)), (λ h. ground (arith, text_eq_iff k j)))

  -- One round, for a search whose dependencies are known to be right.
  round-Inv :
      (s t : Search) (k : Text) (q : List Text)
      → s.queue ≡ k ∷ q
      → Inv s
      → (m : List (Text × List Text)) → Learned m
      → Grew plan_all (deps_of k) (record s { queue = q; adj = m }) t
      → Inv t
  unfolding in_set
  round-Inv s t k q e v m learned g =
      let first : Has s.queue k = rw e (rw (text_eq_refl k) refl) in
      let here = v.waiting k first in
      record {
        sound = λ j h. elim (g.added j h) [
          | inl old ↦ v.sound j old
          | inr new ↦ step (v.sound k here) new.0 new.1
        ];
        roots = λ j h. g.kept j (v.roots j h);
        waiting = λ j h. elim (g.queued j h) [
          | inl old ↦ g.kept j (
              v.waiting j (subst (λ (l : List Text). Has l j) (sym e) ((popped k q j).1 (inr old))))
          | inr new ↦ new
        ];
        closed = λ j d h p dep. elim (g.added j h) [
          | inr new ↦ inl new.2
          | inl old ↦ elim (v.closed j d old p dep) [
            | inr there ↦ inr (g.kept d there)
            | inl queued ↦ elim ((popped k q j).0 (subst (λ (l : List Text). Has l j) e queued)) [
              | inl same ↦ inr (g.taken d p (rw same dep))
              | inr more ↦ inl (g.waits j more)
            ]
          ]
        ];
        learned = subst Learned (sym g.same) learned;
      }

  -- A round keeps the invariant, and uses up one of the turns.
  expand-Inv :
      (s : Search) (k : Text) (q : List Text)
      → s.queue ≡ k ∷ q
      → Inv s
      → Inv (expand plan_all deps_of k (record s { queue = q }))
        × (unseen plan_all (expand plan_all deps_of k (record s { queue = q })).scope
              + length (expand plan_all deps_of k (record s { queue = q })).queue
            ≤ unseen plan_all s.scope + length q)
  unfolding expand
  expand-Inv s k q e v =
      let (m, good, found) = neighbours-Learned k (record s { queue = q }) v.learned in
      let g = offers-Grew plan_all (deps_of k) (record s { queue = q; adj = m }) in
      rw found (
        round-Inv s (foldl (offer plan_all) (record s { queue = q; adj = m }) (deps_of k)) k q e v m
            good g,
        g.fewer,
      )

  -- At the end of the search the scope is closed under dependencies.
  complete : (s : Search) → s.queue ≡ [] → Inv s → {k : Text} → Reaches k → Has s.scope k
  unfolding in_set
  complete s e v (root h) = v.roots _ h
  complete s e v (step {k} {d} r p dep) = elim (v.closed k d (complete s e v r) p dep) [
    | inl queued ↦
        let none_left : Has [] k = subst (λ (l : List Text). Has l k) e queued in cc none_left
    | inr there ↦ there
  ]

  abbrev Finds : Option (List Text) → Type 0
  Finds o = (scope : List Text) × (o ≡ some scope) × ((k : Text) → Has scope k ↔ Reaches k)

  search_scope-Finds :
      (f : ℕ) (s : Search)
      → unseen plan_all s.scope + length s.queue < f
      → Inv s
      → Finds (search_scope plan_all deps_of f s)
  unfolding search_scope pop
  search_scope-Finds zero s h v = elim h [ ]
  search_scope-Finds (suc f) s h v = elim (queue-cases s.queue) [
    | inl e ↦ rw e (s.scope, refl, λ k. (v.sound k, complete s e v))
    | inr (k, q, e) ↦
        let (w, less) = expand-Inv s k q e v in
        rw e (
          search_scope-Finds f (expand plan_all deps_of k (record s { queue = q }))
            (omega (arith, less, h, ap length e)) w)
  ]

  abbrev nothing : Search
  nothing = record { scope = []; queue = []; adj = [] }

  enqueue_all :
      (ks : List Text) (s : Search)
      → All (Has plan_all) ks
      → foldl enqueue s ks ≡ foldl (offer plan_all) s ks
  unfolding offer
  enqueue_all [] s h = refl
  enqueue_all (k ∷ ks) s h = rw h.0 (enqueue_all ks (enqueue s k) h.1)

  Inv-start : All (Has plan_all) keys → Inv (foldl enqueue nothing keys)
  unfolding in_set known_deps
  Inv-start h =
      let g = offers-Grew plan_all keys nothing in
      rw (enqueue_all keys nothing h) record {
        sound = λ k t. elim (g.added k t) [ inl old ↦ cc | inr new ↦ root new.1 ];
        roots = λ k t. g.taken k (All-Has plan_all keys k h t) t;
        waiting = λ k t. elim (g.queued k t) [ inl old ↦ cc | inr new ↦ new ];
        closed = λ k d t p dep. elim (g.added k t) [ inl old ↦ cc | inr new ↦ inl new.2 ];
        learned = rw g.same (λ k. inl refl);
      }

  pub scope_of-Finds : All (Has plan_all) keys → Finds (scope_of plan_all deps_of keys)
  unfolding scope_of
  scope_of-Finds h =
      let g = offers-Grew plan_all keys nothing in
      search_scope-Finds (suc (length plan_all)) (foldl enqueue nothing keys)
        (rw (enqueue_all keys nothing h) (omega (arith, g.fewer, unseen_nil plan_all)))
        (Inv-start h)

root_key-Has :
    (base : Text) (plan_all : List Text) (r k : Text)
    → root_key base plan_all r ≡ some k
    → Has plan_all k
unfolding root_key
root_key-Has base plan_all r k h = elim (Bool-cases (is_empty (trim r))) [
  | inl blank ↦ cc (rw (blank, root_key) at h)
  | inr name ↦ elim (Option-cases (under_base base (trim r))) [
    | inl outside ↦ cc (rw (name, outside, root_key) at h)
    | inr (rel, e) ↦ elim (Bool-cases (in_set plan_all rel)) [
      | inl there ↦ ground (arith, h, name, e, there)
      | inr gone ↦ cc (rw (name, e, gone, root_key) at h)
    ]
  ]
]

root_keys-Has :
    (base : Text) (plan_all rs : List Text) → All (Has plan_all) (root_keys base plan_all rs)
unfolding root_keys
root_keys-Has base plan_all [] = tt
root_keys-Has base plan_all (r ∷ rs) = elim (Option-cases (root_key base plan_all r)) [
  | inl e ↦ rw e (root_keys-Has base plan_all rs)
  | inr (k, e) ↦ rw e (root_key-Has base plan_all r k e, root_keys-Has base plan_all rs)
]

no_roots :
    (plan_all : List Text) (deps_of : Text → List Text) (k : Text)
    → Reaches plan_all deps_of [] k
    → ⊥
unfolding in_set
no_roots plan_all deps_of k (root h) = cc
no_roots plan_all deps_of k (step {k = j} r p dep) = no_roots plan_all deps_of j r

keys-Finds :
    (plan_all : List Text) (deps_of : Text → List Text) (keys : List Text)
    → All (Has plan_all) keys
    → Finds plan_all deps_of keys
        (if is_empty keys then some [] else scope_of plan_all deps_of keys)
unfolding is_empty in_set
keys-Finds plan_all deps_of [] h =
    ([], refl, λ k. ((λ t. cc), (λ r. absurd (no_roots plan_all deps_of k r))))
keys-Finds plan_all deps_of (k ∷ ks) h = scope_of-Finds plan_all deps_of (k ∷ ks) h

module _ (utf8 : Text → List ℕ) (base : Text) (plan_all : List Text) where
  -- The search for the scope of a plan ends, and in the end it has found all that can be
  -- reached from the roots, through the scripts, in the manifest, and nothing else.
  pub compute_plan_scope-Finds :
      (open_lines : Text → Option LineReads) (roots : List Text)
      → (scope : List Text) × (compute_plan_scope utf8 base plan_all open_lines roots ≡ some scope)
        × ((k : Text)
            → Has scope k
              ↔ Reaches plan_all
                  (deps_from_dofile utf8 base plan_all open_lines)
                  (root_keys base plan_all roots)
                  k)
  unfolding compute_plan_scope
  compute_plan_scope-Finds open_lines roots =
      keys-Finds plan_all (deps_from_dofile utf8 base plan_all open_lines)
        (root_keys base plan_all roots) (root_keys-Has base plan_all roots)
