-- ===== src/Plan/Count.antt =====
-- `compute_build_plan` of bins/src/redo.rs: how many targets of the scope are up to date. The
-- iteration over the scope, a hash set, is in the order of the list that `order` makes of it.
pub mod Laws
use redo.Base.{
  ℕ, ◌+◌, Bool, true, false, List, [], ◌∷◌, Text, codes, Option, none, some, length, is_empty,
  if◌then◌else◌, Result, ok, err, Error, out_of_fuel,
}
use redo.Paths.Components.{join}
use redo.Store.Rows.{File, unwrap_or}
use redo.Store.Transactions.{State}
use redo.Store.Files.{World, by_name}
use redo.Deps.{DirtyResult, clean, dirty, must_build, Answer}
use redo.Deps.Plan.{PlanCache, empty_cache, isdirty_readonly_default, take_checked_ids}
use redo.Plan.Scope.{LineReads, load_plan_targets, compute_plan_scope}

pub record BuildPlan : Type 0 where
  pub dirty : ℕ
  pub total : ℕ
  pub uptodate : ℕ
  pub checked_ids : Option (List ℕ)

-- The variables of the loop over the scope.
pub record Tally : Type 0 where
  pub dirty : ℕ
  pub uptodate : ℕ
  pub cache : PlanCache

unfoldable pub tally : Tally → DirtyResult → Tally
tally c clean = record c { uptodate = c.uptodate + 1 }
tally c dirty = record c { dirty = c.dirty + 1 }
tally c (must_build v) = record c { dirty = c.dirty + 1 }

unfoldable pub counted : Tally → Answer × PlanCache → Result Tally
unfolding tally
counted c (err e, cache) = err e
counted c (ok (d, f), cache) = ok (tally (record c { cache = cache }) d)

module _ (w : World) where
  -- A file that is not known counts as dirty.
  unfoldable pub plan_target : State → Tally → Result File → Result Tally
  unfolding counted
  plan_target s c (err e) = ok (record c { dirty = c.dirty + 1 })
  plan_target s c (ok f) = counted c (isdirty_readonly_default w s f (unwrap_or 0 w.runid) c.cache)

  -- The next round, unless the check of a target failed.
  abbrev pub or_stop : (Tally → Result Tally) → Result Tally → Result Tally
  or_stop more (err e) = err e
  or_stop more (ok c) = more c

  -- A lookup by name that may not add a row leaves the state as it is.
  unfoldable pub count_targets : State → List Text → Tally → Result Tally
  unfolding plan_target join by_name
  count_targets s [] c = ok c
  count_targets s (out_rel ∷ scope) c =
      or_stop (count_targets s scope) (plan_target s c (by_name w (join w.base out_rel) false s).0)

  abbrev pub build_plan : List Text → Result Tally → Result (Option BuildPlan)
  build_plan scope (err e) = err e
  build_plan scope (ok c) = ok (
      some (record {
        dirty = c.dirty;
        total = length scope;
        uptodate = c.uptodate;
        checked_ids = some (take_checked_ids c.cache).0;
      }))

  abbrev pub no_tally : Tally
  no_tally = record { dirty = 0; uptodate = 0; cache = empty_cache }

  unfoldable pub plan_of_scope :
      State → (List Text → List Text) → List Text → Result (Option BuildPlan)
  unfolding count_targets take_checked_ids is_empty
  plan_of_scope s order scope =
      if is_empty scope then ok none else build_plan scope (count_targets s (order scope) no_tally)

  abbrev pub default_roots : List Text → List Text
  default_roots [] = codes "all" ∷ []
  default_roots (t ∷ ts) = t ∷ ts

  -- What follows the manifest: none is a scope whose search ran out of fuel.
  abbrev pub plan_scope :
      State → (List Text → List Text) → Option (List Text) → Result (Option BuildPlan)
  plan_scope s order none = err out_of_fuel
  plan_scope s order (some scope) = plan_of_scope s order scope

  abbrev pub plan_targets :
      (Text → List ℕ)
      → (Text → Option LineReads)
      → State
      → (List Text → List Text)
      → List Text
      → Result (List Text)
      → Result (Option BuildPlan)
  plan_targets utf8 open_lines s order targets (err e) = err e
  plan_targets utf8 open_lines s order targets (ok []) = ok none
  plan_targets utf8 open_lines s order targets (ok (p ∷ ps)) =
      plan_scope s order
        (compute_plan_scope utf8 w.base (p ∷ ps) open_lines (default_roots targets))

  -- `manifest` is the content of .redo/plan.targets, if the file exists: none inside is a file that
  -- cannot be read.
  unfoldable pub compute_build_plan :
      (Text → List ℕ)
      → (Text → Option LineReads)
      → State
      → (List Text → List Text)
      → Option (Option Text)
      → List Text
      → Result (Option BuildPlan)
  unfolding plan_of_scope load_plan_targets compute_plan_scope
  compute_build_plan utf8 open_lines s order none targets = ok none
  compute_build_plan utf8 open_lines s order (some content) targets =
      plan_targets utf8 open_lines s order targets (load_plan_targets w.base content)
