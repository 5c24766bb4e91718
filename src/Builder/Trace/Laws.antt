-- ===== src/Builder/Trace/Laws.antt =====
-- What the evaluation of a trace reports.
use mathlib.Core.List.{foldl}
use redo.Base.{
  ℕ, ◌≡◌, refl, ap, ◌≢◌, ◌↔◌, inl, inr, Bool, true, false, not, ◌&&◌, ◌||◌, List, [], ◌∷◌, ◌++◌,
  All, arith, Text, text_eq, text_eq_iff, is_empty, Bool-cases,
}
use redo.Paths.Components.{Component, root_dir, cur_dir, parent_dir, normal, components, join}
use redo.Store.Rows.{File, always, is_some}
use redo.Builder.Trace.{
  normalize_path_lex, component_eq, components_eq, path_eq, mem_path, insert_path, starts_with,
  redo_dir, allow, allowed_paths, reason_of, absolute_of, insert_sorted, sort, dedup, undeclared,
}

component_eq_iff : (c d : Component) → (component_eq c d ≡ true) ↔ (c ≡ d)
unfolding component_eq
component_eq_iff (normal s) (normal t) = ground (arith, text_eq_iff s t)
component_eq_iff root_dir root_dir = (λ h. refl, λ h. refl)
component_eq_iff cur_dir cur_dir = (λ h. refl, λ h. refl)
component_eq_iff parent_dir parent_dir = (λ h. refl, λ h. refl)
component_eq_iff _ _ = (λ h. cc, λ h. cc)

components_eq_iff : (cs ds : List Component) → (components_eq cs ds ≡ true) ↔ (cs ≡ ds)
unfolding components_eq
components_eq_iff [] [] = (λ h. refl, λ h. refl)
components_eq_iff [] (d ∷ ds) = (λ h. cc, λ h. cc)
components_eq_iff (c ∷ cs) [] = (λ h. cc, λ h. cc)
components_eq_iff (c ∷ cs) (d ∷ ds) = ground (arith, component_eq_iff c d, components_eq_iff cs ds)

path_eq_iff : (p q : Text) → (path_eq p q ≡ true) ↔ (components p ≡ components q)
unfolding path_eq
path_eq_iff p q = components_eq_iff (components p) (components q)

-- Membership looks at components only.
mem_path_eq : (p q : Text) (ps : List Text) → path_eq p q ≡ true → mem_path p ps ≡ mem_path q ps
unfolding mem_path path_eq
mem_path_eq p q [] h = refl
mem_path_eq p q (r ∷ ps) h = ground (
  arith,
  mem_path_eq p q ps h,
  ap (λ (cs : List Component). components_eq cs (components r)) ((path_eq_iff p q).0 h),
)

mem_path-append :
    (p q : Text) (ps : List Text) → mem_path p (ps ++ (q ∷ [])) ≡ path_eq p q || mem_path p ps
unfolding mem_path
mem_path-append p q [] = refl
mem_path-append p q (r ∷ ps) = ground (arith, mem_path-append p q ps)

mem_path-insert_path :
    (p q : Text) (ps : List Text) → mem_path p (insert_path q ps) ≡ path_eq p q || mem_path p ps
unfolding insert_path
mem_path-insert_path p q ps = ground (arith, mem_path-append p q ps, mem_path_eq p q ps)

-- The path of a declared dependency is one that a read may touch.
abbrev pub may_read : Text → Text → List (ℕ × File) → Bool
may_read base p [] = false
may_read base p ((mode, dep) ∷ ds) =
    let abs = normalize_path_lex (join base dep.name) in
    not (text_eq dep.name always) && not (starts_with abs (redo_dir base)) && path_eq p abs
    || may_read base p ds

mem_path-allow :
    (base p : Text) (allowed : List Text) (d : ℕ × File)
    → mem_path p (allow base allowed d) ≡ may_read base p (d ∷ []) || mem_path p allowed
unfolding allow
mem_path-allow base p allowed (mode, dep) =
    ground (arith, mem_path-insert_path p (normalize_path_lex (join base dep.name)) allowed)

mem_path-foldl :
    (base p : Text) (allowed : List Text) (ds : List (ℕ × File))
    → mem_path p (foldl (allow base) allowed ds) ≡ may_read base p ds || mem_path p allowed
mem_path-foldl base p allowed [] = refl
mem_path-foldl base p allowed (d ∷ ds) =
    ground (arith, mem_path-foldl base p (allow base allowed d) ds, mem_path-allow base p allowed d)

pub mem_path-allowed_paths :
    (base p : Text) (ds : List (ℕ × File)) → mem_path p (allowed_paths base ds) ≡ may_read base p ds
unfolding allowed_paths mem_path
mem_path-allowed_paths base p ds = ground (arith, mem_path-foldl base p [] ds)

-- An entry is in order if it is a note on the trace, lies outside of the project or is declared.
abbrev pub in_order : Text → List (ℕ × File) → Text → Bool
in_order base declared e =
    let abs = absolute_of base e in
    is_empty e
    || is_some (reason_of e)
    || starts_with abs (redo_dir base)
    || not (starts_with abs base)
    || may_read base abs declared

abbrev pub is_complete : Text → Bool
is_complete e = is_empty e || not (is_some (reason_of e))

module _ (base : Text) (allowed : List Text) where
  abbrev pub Allowed : List Text → Type 0
  Allowed ps = All (λ (p : Text). mem_path p allowed ≡ true) ps

  Allowed-mem_path :
      (p : Text) (ps : List Text) → Allowed ps → mem_path p ps ≡ true → mem_path p allowed ≡ true
  unfolding mem_path
  Allowed-mem_path p [] h m = cc
  Allowed-mem_path p (q ∷ ps) h m =
      ground (arith, mem_path_eq p q allowed, Allowed-mem_path p ps h.1)

  Allowed-append :
      (p : Text) (ps : List Text)
      → Allowed (ps ++ (p ∷ [])) ↔ ((mem_path p allowed ≡ true) × Allowed ps)
  Allowed-append p [] = (λ h. h, λ h. h)
  Allowed-append p (q ∷ ps) =
      let go = Allowed-append p ps in
      (λ h. ((go.0 h.1).0, (h.0, (go.0 h.1).1)), λ h. (h.1.0, go.1 (h.0, h.1.1)))

  pub Allowed-insert_path :
      (p : Text) (ps : List Text)
      → Allowed (insert_path p ps) ↔ ((mem_path p allowed ≡ true) × Allowed ps)
  unfolding insert_path
  Allowed-insert_path p ps = elim (Bool-cases (mem_path p ps)) [
    | inl old ↦ rw old ((λ h. (Allowed-mem_path p ps h old, h)), (λ h. h.1))
    | inr new ↦ rw new (Allowed-append p ps)
  ]

  pub undeclared_nil : (ps : List Text) → (undeclared base allowed ps ≡ []) ↔ Allowed ps
  unfolding undeclared
  undeclared_nil [] = (λ h. tt, λ h. refl)
  undeclared_nil (p ∷ ps) = elim (Bool-cases (mem_path p allowed)) [
    | inl fine ↦
        rw (fine, undeclared)
          ((λ h. (refl, (undeclared_nil ps).0 h)), (λ h. (undeclared_nil ps).1 h.1))
    | inr bad ↦ rw (bad, undeclared) ((λ h. cc), (λ h. cc (h.0)))
  ]

insert_sorted_ne_nil : (v : Text) (ws : List Text) → insert_sorted v ws ≢ []
unfolding insert_sorted
insert_sorted_ne_nil v [] = λ e. cc
insert_sorted_ne_nil v (w ∷ ws) = ground arith

dedup_ne_nil : (w : Text) (ws : List Text) → dedup (w ∷ ws) ≢ []
unfolding dedup
dedup_ne_nil w [] = λ e. cc
dedup_ne_nil w (v ∷ ws) = ground (arith, dedup_ne_nil v ws)

dedup-nil : (ws : List Text) → ws ≢ [] → dedup ws ≢ []
dedup-nil [] h = absurd (h refl)
dedup-nil (w ∷ ws) h = dedup_ne_nil w ws

pub dedup-sort_nil : (ws : List Text) → (dedup (sort ws) ≡ []) ↔ (ws ≡ [])
unfolding sort dedup
dedup-sort_nil [] = (λ h. refl, λ h. refl)
dedup-sort_nil (w ∷ ws) = (
  λ h. absurd (dedup-nil (insert_sorted w (sort ws)) (insert_sorted_ne_nil w (sort ws)) h),
  λ h. cc,
)
