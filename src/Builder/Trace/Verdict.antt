-- ===== src/Builder/Trace/Verdict.antt =====
-- A trace without violations, told from its entries.
use mathlib.Core.List.{foldl}
use redo.Base.{
  ℕ, ◌≡◌, refl, sym, ◌∙◌, ◌↔◌, inl, inr, Bool, true, false, not, ◌||◌, List, [], ◌∷◌, All, Text,
  is_empty, if◌then◌else◌, Bool-cases, Option-cases,
}
use redo.Store.Rows.{File}
use redo.Builder.Trace.{
  insert_path, starts_with, redo_dir, allowed_paths, Trace, spoil, reason_of, absolute_of, observe,
  undeclared, evaluate_strict_readtrace,
}
use redo.Builder.Trace.Laws.{
  may_read, mem_path-allowed_paths, in_order, is_complete, Allowed, Allowed-insert_path,
  undeclared_nil, dedup-sort_nil,
}

kept :
    (t : Trace) (ps : List Text) (a b : Bool)
    → ((if a then t else if b then record t { observed = ps } else t).trace_ok ≡ true)
      ↔ ((t.trace_ok ≡ true) × (true ≡ true))
kept t ps true b = ((λ h. (h, refl)), (λ h. h.0))
kept t ps false true = ((λ h. (h, refl)), (λ h. h.0))
kept t ps false false = ((λ h. (h, refl)), (λ h. h.0))

module _ (base : Text) (declared : List (ℕ × File)) where
  Fine : Trace → Type 0
  Fine t = Allowed base (allowed_paths base declared) t.observed

  seen :
      (t : Trace) (abs : Text) (a b : Bool)
      → Fine (if a then t else if b then record t { observed = insert_path abs t.observed } else t)
        ↔ (Fine t × (a || not b || may_read base abs declared ≡ true))
  unfolding Fine
  seen t abs true b = ((λ h. (h, refl)), (λ h. h.0))
  seen t abs false false = ((λ h. (h, refl)), (λ h. h.0))
  seen t abs false true =
      let insert = Allowed-insert_path base (allowed_paths base declared) abs t.observed in
      let same = mem_path-allowed_paths base abs declared in
      ((λ h. ((insert.0 h).1, sym same ∙ (insert.0 h).0)), (λ h. insert.1 (same ∙ h.1, h.0)))

  -- What one entry adds to the observed paths.
  observe-Fine :
      (t : Trace) (e : Text)
      → Fine (observe base t e) ↔ (Fine t × (in_order base declared e ≡ true))
  unfolding observe spoil Fine
  observe-Fine t e = elim (Bool-cases (is_empty e)) [
    | inl blank ↦ rw (blank, observe) ((λ h. (h, refl)), (λ h. h.0))
    | inr text ↦ elim (Option-cases (reason_of e)) [
      | inl path ↦
          rw (text, path, observe)
            (seen t (absolute_of base e) (starts_with (absolute_of base e) (redo_dir base))
              (starts_with (absolute_of base e) base))
      | inr (reason, note) ↦ rw (text, note, observe) ((λ h. (h, refl)), (λ h. h.0))
    ]
  ]

  observe-trace_ok :
      (t : Trace) (e : Text)
      → ((observe base t e).trace_ok ≡ true) ↔ ((t.trace_ok ≡ true) × (is_complete e ≡ true))
  unfolding observe spoil
  observe-trace_ok t e = elim (Bool-cases (is_empty e)) [
    | inl blank ↦ rw (blank, observe) ((λ h. (h, refl)), (λ h. h.0))
    | inr text ↦ elim (Option-cases (reason_of e)) [
      | inl path ↦
          rw (text, path, observe)
            (kept t (insert_path (absolute_of base e) t.observed)
              (starts_with (absolute_of base e) (redo_dir base))
              (starts_with (absolute_of base e) base))
      | inr (reason, note) ↦ rw (text, note, observe) ((λ h. cc), (λ h. cc (h.1)))
    ]
  ]

  fold-Fine :
      (t : Trace) (es : List Text)
      → Fine (foldl (observe base) t es)
        ↔ (Fine t × All (λ (e : Text). in_order base declared e ≡ true) es)
  fold-Fine t [] = (λ h. (h, tt), λ h. h.0)
  fold-Fine t (e ∷ es) =
      let first = observe-Fine t e in
      let later = fold-Fine (observe base t e) es in
      (
        (λ h. let h' = later.0 h in ((first.0 h'.0).0, ((first.0 h'.0).1, h'.1))),
        (λ h. later.1 (first.1 (h.0, h.1.0), h.1.1)),
      )

  fold-trace_ok :
      (t : Trace) (es : List Text)
      → ((foldl (observe base) t es).trace_ok ≡ true)
        ↔ ((t.trace_ok ≡ true) × All (λ (e : Text). is_complete e ≡ true) es)
  fold-trace_ok t [] = (λ h. (h, tt), λ h. h.0)
  fold-trace_ok t (e ∷ es) =
      let first = observe-trace_ok t e in
      let later = fold-trace_ok (observe base t e) es in
      (
        (λ h. let h' = later.0 h in ((first.0 h'.0).0, ((first.0 h'.0).1, h'.1))),
        (λ h. later.1 (first.1 (h.0, h.1.0), h.1.1)),
      )

  -- There is no violation exactly if each entry is empty, a note on the trace, a path outside
  -- of the project or in its .redo directory, or the path of a declared dependency; and the
  -- trace is good exactly if no entry is a note.
  pub evaluate_strict_readtrace_iff :
      (entries : List Text)
      → let r = evaluate_strict_readtrace base declared entries in
        ((r.violations ≡ []) ↔ All (λ (e : Text). in_order base declared e ≡ true) entries)
        × ((r.trace_ok ≡ true) ↔ All (λ (e : Text). is_complete e ≡ true) entries)
  unfolding evaluate_strict_readtrace Fine
  evaluate_strict_readtrace_iff entries =
      let start : Trace = record { trace_ok = true; trace_reason = []; observed = [] } in
      let t = foldl (observe base) start entries in
      let allowed = allowed_paths base declared in
      let none_left = dedup-sort_nil (undeclared base allowed t.observed) in
      let all_allowed = undeclared_nil base allowed t.observed in
      let fine = fold-Fine start entries in
      let complete = fold-trace_ok start entries in
      (
        (
          (λ h. (fine.0 (all_allowed.0 (none_left.0 h))).1),
          (λ h. none_left.1 (all_allowed.1 (fine.1 (tt, h)))),
        ),
        ((λ h. (complete.0 h).1), (λ h. complete.1 (refl, h))),
      )
