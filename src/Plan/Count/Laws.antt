-- ===== src/Plan/Count/Laws.antt =====
-- A plan counts the targets of its scope that are up to date.
use redo.Base.{
  ℕ, suc, Bool, true, false, ◌+◌, ◌≡◌, ◌≢◌, refl, sym, ◌∙◌, ap, List, [], ◌∷◌, Text, Option, none,
  some, ok, err, Result, Error, arith, length, contains, inl, inr, ◌⊎◌, ◌↔◌, is_empty,
  if◌then◌else◌, out_of_fuel,
}
use redo.Paths.Components.{join}
use redo.Store.Rows.{File, FileRow, unwrap_or}
use redo.Store.Tables.{row_by_id, row_by_name}
use redo.Store.Transactions.{State}
use redo.Store.Files.{World, by_name, found, stored_name}
use redo.Store.Rows.{from_row}
use redo.Deps.{clean, dirty, must_build, Answer}
use redo.Deps.Plan.{PlanCache, lookup, take_checked_ids, empty_cache, isdirty_readonly_default}
use redo.Deps.Fresh.{Fresh, UpToDate, IsRow}
use redo.Deps.Fresh.Cache.{IsSound}
use redo.Deps.Fresh.Decides.{Answers}
use redo.Deps.Fresh.Ends.{isdirty_readonly_default-Answers}
use redo.Plan.Scope.{LineReads, load_plan_targets, root_keys, deps_from_dofile}
use redo.Plan.Scope.Laws.{Has}
use redo.Plan.Scope.Once.{Once, compute_plan_scope-Once}
use redo.Plan.Scope.Reach.{Reaches, compute_plan_scope-Finds}
use redo.Plan.Count.{
  BuildPlan, no_tally, build_plan, plan_of_scope, compute_build_plan, default_roots, Tally, tally,
  counted, plan_target, or_stop, count_targets,
}

length-nil : (ts : List Text) → length ts ≡ 0 → ts ≡ []
length-nil [] h = refl
length-nil (t ∷ ts) h = absurd (omega (arith, h))

module _ (w : World) (s : State) where
  -- An id names one row.
  abbrev pub HasKeys : Type 0
  HasKeys =
      (n : Text) (r : FileRow)
      → row_by_name n s.db.files ≡ some r
      → row_by_id r.id s.db.files ≡ some r

  abbrev pub looked_up : Text → Result File
  looked_up t = (by_name w (join w.base t) false s).0

  abbrev pub run_id : ℕ
  run_id = unwrap_or 0 w.runid

  -- A known target that is up to date, and one that is unknown or is not.
  abbrev pub Verdict : Text → Bool → Type 0
  Verdict t true = (f : File) × (looked_up t ≡ ok f) × UpToDate w s f run_id
  Verdict t false =
      ((e : Error) × (looked_up t ≡ err e))
      ⊎ ((f : File) × (looked_up t ≡ ok f) × (¬ UpToDate w s f run_id))

  -- How many of some targets are not up to date, and how many are.
  pub data Count : List Text → ℕ → ℕ → Type 0 where
    end : Count [] 0 0
    fresh :
        {t : Text} {ts : List Text} {d u : ℕ}
        → Verdict t true
        → Count ts d u
        → Count (t ∷ ts) d (suc u)
    stale :
        {t : Text} {ts : List Text} {d u : ℕ}
        → Verdict t false
        → Count ts d u
        → Count (t ∷ ts) (suc d) u

  found-IsRow :
      HasKeys
      → (n : Text) (o : Option FileRow) (f : File) → row_by_name n s.db.files ≡ o
      → (found w o s).0 ≡ ok f
      → IsRow w s f
  unfolding found from_row
  found-IsRow keys n none f e h = cc
  found-IsRow keys n (some r) f e h =
      let same : from_row w.runid r ≡ f = cc in rw (← same) (rw (keys n r e) refl)

  by_name-false :
      (m : Text) (o : Option FileRow)
      → row_by_name (stored_name w m) s.db.files ≡ o
      → (by_name w m false s).0 ≡ (found w o s).0
  unfolding by_name
  by_name-false m none e = rw e refl
  by_name-false m (some r) e = rw e refl

  looked_up-IsRow : HasKeys → (t : Text) (f : File) → looked_up t ≡ ok f → IsRow w s f
  looked_up-IsRow keys t f h =
      let n = stored_name w (join w.base t) in
      let same = by_name-false (join w.base t) (row_by_name n s.db.files) refl in
      found-IsRow keys n (row_by_name n s.db.files) f refl (sym same ∙ h)

  -- What a check of one target adds, and that the cache still holds only what is so.
  abbrev OneCounted : Text → Tally → Result Tally → Type 0
  OneCounted t c (err e) = e ≢ out_of_fuel
  OneCounted t c (ok c') =
      (b : Bool) × Verdict t b
      × (c'.dirty ≡ c.dirty + (if b then 0 else 1))
      × (c'.uptodate ≡ c.uptodate + (if b then 1 else 0))
      × IsSound w s c'.cache

  answer-Counted :
      (t : Text) (c : Tally) (f : File) (a : Answer × PlanCache)
      → looked_up t ≡ ok f
      → (a.0 ≢ err out_of_fuel) × Answers w s (UpToDate w s f run_id) a
      → OneCounted t c (counted c a)
  unfolding counted tally
  answer-Counted t c f (err e, k) h a = λ (o : e ≡ out_of_fuel). a.0 (ap err o)
  answer-Counted t c f (ok (clean, g), k) h a = (true, (f, h, a.1.0), omega arith, refl, a.1.1)
  answer-Counted t c f (ok (dirty, g), k) h a = (false, inr (f, h, a.1.0), refl, omega arith, a.1.1)
  answer-Counted t c f (ok (must_build v, g), k) h a =
      (false, inr (f, h, a.1.0.1), refl, omega arith, a.1.1)

  plan_target-Counted :
      HasKeys
      → (t : Text) (c : Tally) (r : Result File) → looked_up t ≡ r
      → IsSound w s c.cache
      → OneCounted t c (plan_target w s c r)
  unfolding plan_target
  plan_target-Counted keys t c (err e) h v = (false, inl (e, h), refl, omega arith, v)
  plan_target-Counted keys t c (ok f) h v =
      answer-Counted t c f (isdirty_readonly_default w s f run_id c.cache) h (
        let a =
          isdirty_readonly_default-Answers w s f run_id c.cache (looked_up-IsRow keys t f h) v in
        (a.0, a.1))

  -- A plan that is right so far.
  abbrev Counted : List Text → Tally → Result Tally → Type 0
  Counted ts c (err e) = e ≢ out_of_fuel
  Counted ts c (ok c') =
      (d u : ℕ) × Count ts d u
      × (c'.dirty ≡ c.dirty + d)
      × (c'.uptodate ≡ c.uptodate + u)
      × IsSound w s c'.cache

  joined-Counted :
      (b : Bool) (t : Text) (ts : List Text) (c c' : Tally) (r : Result Tally)
      → Verdict t b
      → c'.dirty ≡ c.dirty + (if b then 0 else 1)
      → c'.uptodate ≡ c.uptodate + (if b then 1 else 0)
      → Counted ts c' r
      → Counted (t ∷ ts) c r
  joined-Counted b t ts c c' (err e) verdict x y h = h
  joined-Counted true t ts c c' (ok z) verdict x y (d, u, n, p, q, v) =
      (d, suc u, fresh verdict n, omega (arith, p, x), omega (arith, q, y), v)
  joined-Counted false t ts c c' (ok z) verdict x y (d, u, n, p, q, v) =
      (suc d, u, stale verdict n, omega (arith, p, x), omega (arith, q, y), v)

  more-Counted :
      (t : Text) (ts : List Text) (c : Tally) (r : Result Tally)
      → ((c' : Tally) → IsSound w s c'.cache → Counted ts c' (count_targets w s ts c'))
      → OneCounted t c r
      → Counted (t ∷ ts) c (or_stop w (count_targets w s ts) r)
  more-Counted t ts c (err e) rest h = h
  more-Counted t ts c (ok c') rest (b, verdict, x, y, v) =
      joined-Counted b t ts c c' (count_targets w s ts c') verdict x y (rest c' v)

  count_targets-Counted :
      HasKeys
      → (ts : List Text) (c : Tally) → IsSound w s c.cache
      → Counted ts c (count_targets w s ts c)
  unfolding count_targets
  count_targets-Counted keys [] c v = (0, 0, end, omega arith, omega arith, v)
  count_targets-Counted keys (t ∷ ts) c v =
      more-Counted t ts c (plan_target w s c (looked_up t)) (count_targets-Counted keys ts)
        (plan_target-Counted keys t c (looked_up t) refl v)

  empty_cache-IsSound : IsSound w s empty_cache
  unfolding lookup
  empty_cache-IsSound = record {
    checked = λ f row h. cc;
    stamps = λ f t row e. cc;
    dependencies = λ f v row e. cc;
  }

  length-Count : {ts : List Text} {d u : ℕ} → Count ts d u → length ts ≡ d + u
  length-Count end = omega arith
  length-Count (fresh v n) = omega (arith, length-Count n)
  length-Count (stale v n) = omega (arith, length-Count n)

  -- What a plan says of a scope, in the order in which it was gone through.
  abbrev pub Plans : List Text → Result (Option BuildPlan) → Type 0
  Plans ts (err e) = e ≢ out_of_fuel
  Plans ts (ok none) = ts ≡ []
  Plans ts (ok (some p)) =
      Count ts p.dirty p.uptodate
      × (p.total ≡ p.dirty + p.uptodate)
      × ((ids : List ℕ)
          → p.checked_ids ≡ some ids
          → (f : File) → IsRow w s f
          → contains ids f.id ≡ true
          → Fresh w s f)

  built-Plans :
      (scope ts : List Text) (r : Result Tally)
      → length ts ≡ length scope
      → Counted ts (no_tally w) r
      → Plans ts (build_plan w scope r)
  unfolding take_checked_ids
  built-Plans scope ts (err e) l h = h
  built-Plans scope ts (ok c) l (d, u, n, p, q, v) =
      let dirties : c.dirty ≡ d = omega (arith, p) in
      let clean_ones : c.uptodate ≡ u = omega (arith, q) in
      (
        rw (dirties, clean_ones) n,
        omega (arith, l, length-Count n, p, q),
        λ ids e f row h. v.checked f row (let same : c.cache.checked ≡ ids = cc in rw same h),
      )

  -- A way to go through a set: each text once.
  pub record IsOrder (order : List Text → List Text) : Type 0 where
    pub same_length : (ts : List Text) → length (order ts) ≡ length ts
    pub same_texts : (ts : List Text) (t : Text) → Has (order ts) t ↔ Has ts t
    pub each_once : (ts : List Text) → Once ts → Once (order ts)

  scope-Plans :
      HasKeys
      → (order : List Text → List Text) → IsOrder order
      → (scope : List Text) → Plans (order scope) (plan_of_scope w s order scope)
  unfolding plan_of_scope is_empty
  scope-Plans keys order o [] = length-nil (order []) (o.same_length [])
  scope-Plans keys order o (t ∷ ts) =
      built-Plans (t ∷ ts) (order (t ∷ ts)) (count_targets w s (order (t ∷ ts)) (no_tally w))
        (o.same_length (t ∷ ts))
        (count_targets-Counted keys (order (t ∷ ts)) (no_tally w) empty_cache-IsSound)

  -- The plan of a build is about the targets that can be reached from its roots through the
  -- scripts, as far as they are in the manifest, each of them once: it counts those that are
  -- up to date, and those that are unknown or are not, and the total is their sum. Each
  -- checked file that the plan hands on is up to date. The search and the checks end; an error
  -- is one of the code's. An id names one row, the scope is gone through in some order that
  -- takes each text once, and the manifest can be read and is not empty.
  pub compute_build_plan-Plans :
      (utf8 : Text → List ℕ) (open_lines : Text → Option LineReads) (order : List Text → List Text)
      (content : Option Text) (targets : List Text) (p : Text) (ps : List Text)
      → HasKeys
      → IsOrder order
      → load_plan_targets w.base content ≡ ok (p ∷ ps)
      → (scope : List Text) × ((k : Text)
          → Has (order scope) k
            ↔ Reaches
                (p ∷ ps)
                (deps_from_dofile utf8 w.base (p ∷ ps) open_lines)
                (root_keys w.base (p ∷ ps) (default_roots w targets))
                k)
        × Once (order scope)
        × Plans (order scope) (compute_build_plan w utf8 open_lines s order (some content) targets)
  unfolding compute_build_plan
  compute_build_plan-Plans utf8 open_lines order content targets p ps keys o h =
      let (scope, found, all) =
        compute_plan_scope-Finds utf8 w.base (p ∷ ps) open_lines (default_roots w targets) in
      (
        scope,
        (λ k. (
          (λ t. (all k).0 ((o.same_texts scope k).0 t)),
          (λ r. (o.same_texts scope k).1 ((all k).1 r)),
        )),
        o.each_once scope (
            compute_plan_scope-Once utf8 w.base (p ∷ ps) open_lines (default_roots w targets) scope
              found),
        rw (h, found) (scope-Plans keys order o scope),
      )
