-- ===== src/Tests/LockRuns.antt =====
-- `Lock` of redo_core/src/state.rs, and the strict read trace of redo_core/src/builder.rs
use redo.Base.{
  if◌then◌else◌, ◌≡◌, ◌↔◌, refl, true, false, List, [], ◌∷◌, All, Text, codes, none, err,
  lock_exists,
}
use redo.Store.Rows.{from_row}
use redo.Store.Transactions.{State}
use redo.Store.Locks.{held, remember, granted, taken, new, drop_lock}
use redo.Store.Locks.Laws.{Call, tries, waits, unlocks, run, new-run-drop_lock}
use redo.Builder.Trace.{evaluate_strict_readtrace}
use redo.Builder.Trace.Laws.{in_order, is_complete}
use redo.Builder.Trace.Verdict.{evaluate_strict_readtrace_iff}
use redo.Tests.Sample.{state, out}

abbrev made : State
made = record state { locks_held = remember 5 false [] }

abbrev calls : List Call
calls = tries [] taken ∷ waits [] granted ∷ unlocks granted ∷ tries [] granted ∷ []

new-run-drop_lock_example :
    let (m, u) = run (record { fid = 5; owned = false }, made) calls in
    (held 6 u.locks_held ≡ held 6 [])
    × (new 5 u ≡ (if m.owned then (err lock_exists, u) else new 5 u))
    × (held 5 (drop_lock granted m u).locks_held ≡ none)
unfolding new
new-run-drop_lock_example =
    new-run-drop_lock 5 state made (record { fid = 5; owned = false }) calls granted 6 refl refl

abbrev entries : List Text
entries = codes "/p/out" ∷ codes "secret" ∷ codes "/usr/lib/x" ∷ codes ".redo/db" ∷ []

report :
    (evaluate_strict_readtrace (codes "/p") ((b'm', out) ∷ []) entries).violations
    ≡ codes "secret" ∷ []
unfolding evaluate_strict_readtrace from_row
report = refl

evaluate_strict_readtrace_iff_example :
    let r = evaluate_strict_readtrace (codes "/p") ((b'm', out) ∷ []) entries in
    ((r.violations ≡ [])
      ↔ All (λ (e : Text). in_order (codes "/p") ((b'm', out) ∷ []) e ≡ true) entries)
    × ((r.trace_ok ≡ true) ↔ All (λ (e : Text). is_complete e ≡ true) entries)
evaluate_strict_readtrace_iff_example =
    evaluate_strict_readtrace_iff (codes "/p") ((b'm', out) ∷ []) entries
