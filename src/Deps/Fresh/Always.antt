-- ===== src/Deps/Fresh/Always.antt =====
-- The dependency on //ALWAYS as the walk of redo_core/src/deps.rs reads it.
use redo.Base.{
  ℕ, ◌≡◌, refl, subst, ◌<◌, ◌≤◌, true, false, not, ◌&&◌, ◌||◌, List, [], ◌∷◌, text_eq, text_eq_refl,
  Option, none, some, arith, ◌==◌, ==_iff, if◌then◌else◌, Bool-cases, inl, inr, Option-cases,
}
use redo.Store.Rows.{FileRow, File, DepRow, always, from_row, is_some, ltb_option, unwrap_or}
use redo.Store.Tables.{row_by_id, select_deps}
use redo.Store.Tables.Laws.{dep_row}
use redo.Store.Transactions.{State}
use redo.Store.Files
use redo.Store.Files.{World}
use redo.Deps.{newest, mode_m}
use redo.Deps.Fresh.{Fresh, FreshDeps, FreshDep, absent, built, ignored}
use redo.Deps.Fresh.Decides.{Fresh-facts, head_dep, tail_deps}

-- The row of //ALWAYS reads as changed in this run.
newest_always :
    (r : ℕ) (q : FileRow) → q.name ≡ always → r ≤ unwrap_or 0 (from_row (some r) q).changed_runid
unfolding from_row
newest_always r q e =
    let named : text_eq q.name always ≡ true = rw e (text_eq_refl always) in
    always_cases r q.changed_runid named
  where
    always_cases :
        (n : ℕ) (c : Option ℕ)
        → text_eq q.name always ≡ true
        → n
          ≤ unwrap_or 0 (
              if text_eq q.name always && (not (is_some c) || ltb_option c (some n))
              then some n
              else c)
    always_cases n none h = rw h (omega arith)
    always_cases n (some c) h = ground (arith, h)

module _ (w : World) (s : State) where
  -- Each recorded dependency of a fresh target is in order.
  FreshDeps-row :
      (f : File) (t a : ℕ) (rs : List FileRow) (ds : List DepRow) (d : DepRow) (q : FileRow)
      → dep_row t a ds ≡ some d
      → row_by_id a rs ≡ some q
      → FreshDeps w s f (select_deps w.runid t rs ds)
      → FreshDep w s f d.mode (from_row w.runid q)
  unfolding dep_row select_deps
  FreshDeps-row f t a rs [] d q h k fr = cc
  FreshDeps-row f t a rs (e ∷ ds) d q h k fr = elim (Bool-cases (e.target == t)) [
    | inr other ↦ FreshDeps-row f t a rs ds d q (rw other at h) k (rw other at fr)
    | inl mine ↦ elim (Bool-cases (e.source == a)) [
      | inl this ↦
          let same : row_by_id e.source rs ≡ some q = rw ((==_iff e.source a).0 this) k in
          let row : e ≡ d = cc (rw (mine, this) at h) in
          rw (← row) (head_dep w s (rw (mine, same) at fr))
      | inr that ↦ elim (Option-cases (row_by_id e.source rs)) [
        | inl gone ↦ FreshDeps-row f t a rs ds d q (rw (mine, that) at h) k (rw (mine, gone) at fr)
        | inr (p, there) ↦
            FreshDeps-row f t a rs ds d q (rw (mine, that) at h) k
              (tail_deps w s (rw (mine, there) at fr))
      ]
    ]
  ]

  not_always :
      (f : File) (r : ℕ) (q : FileRow)
      → w.runid ≡ some r
      → q.name ≡ always
      → newest f < r
      → ¬ FreshDep w s f mode_m (from_row w.runid q)
  not_always f r q here name old (absent m gone) = cc
  not_always f r q here name old (built m m' recent fr) =
      let now = newest_always r q name in omega (arith, now, rw here at recent, old)
  not_always f r q here name old (ignored m others) = cc

  deps-made :
      (f : File)
      → f.is_generated ≡ true
      → f.is_override ≡ false
      → Files.deps w f s ≡ select_deps w.runid f.id s.db.files s.db.deps
  unfolding Files.deps
  deps-made f made own = rw (made, own) refl

  -- A target whose recorded dependencies hold //ALWAYS is not fresh, unless it was built or checked
  -- in this run.
  pub always-stale :
      (f : File) (r : ℕ) (d : DepRow) (q : FileRow)
      → w.runid ≡ some r
      → f.is_generated ≡ true
      → f.is_override ≡ false
      → newest f < r
      → q.name ≡ always
      → dep_row f.id q.id s.db.deps ≡ some d
      → d.mode ≡ mode_m
      → row_by_id q.id s.db.files ≡ some q
      → ¬ Fresh w s f
  always-stale f r d q here made own old name row mode there = λ fr.
      let row_dep : FreshDep w s f d.mode (from_row w.runid q) =
        FreshDeps-row f f.id q.id s.db.files s.db.deps d q row there
          (subst (FreshDeps w s f) (deps-made f made own) (Fresh-facts w s f fr).3) in
      not_always f r q here name old
        (subst (λ (m : ℕ). FreshDep w s f m (from_row w.runid q)) mode row_dep)
