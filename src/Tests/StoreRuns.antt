-- ===== src/Tests/StoreRuns.antt =====
-- redo_core/src/state.rs
use redo.Base.{codes, ℕ, Text, none, ◌≡◌, refl, ◌↔◌, true, false, List, [], ◌∷◌}
use redo.Store.Rows.{from_row}
use redo.Store.Tables.Laws.{dep_row}
use redo.Store.Files.{zap_deps1}
use redo.Store.Files.Rebuild.{added, rebuild, row_of, rebuild_lem}
use redo.Store.Tables.{Db}
use redo.Store.Transactions.{commit, rollback, is_flushed}
use redo.Store.Transactions.Laws.{
  IsConsistent, Call, writes, commits, rollbacks, checks, run, run-IsConsistent, write_all,
  apply_all, rollback-commit-write_all,
}
use redo.Store.Stamps.{print_stamp, detect_override}
use redo.Store.Stamps.Laws.{detect_override-print_stamp}
use redo.Tests.Sample.{world, out, state, db, meta}

abbrev drop_deps : Db → Db
drop_deps d = record d { deps = [] }

history : List Call
history =
    writes drop_deps ∷ checks true ∷ commits ∷ writes (λ d. db) ∷ rollbacks ∷ checks false ∷ []

state-IsConsistent : IsConsistent state
state-IsConsistent = record { opened = refl; settled = λ e. refl }

run-IsConsistent_example : IsConsistent (run state history)
run-IsConsistent_example = run-IsConsistent state history state-IsConsistent

rollback-commit-write_all_example :
    let t = write_all (drop_deps ∷ []) state in
    ((rollback t).db ≡ db)
    × ((commit t).committed ≡ apply_all (drop_deps ∷ []) db)
    × ((commit t).db ≡ apply_all (drop_deps ∷ []) db)
    × (is_flushed (rollback t) ≡ true)
    × (is_flushed (commit t) ≡ true)
rollback-commit-write_all_example =
    rollback-commit-write_all (drop_deps ∷ []) state state-IsConsistent refl refl

detect_override-print_stamp_example :
    (detect_override (print_stamp (meta 1)) (print_stamp (meta 2)) ≡ false)
    ↔ (((meta 1).mtime ≡ (meta 2).mtime) × ((meta 1).size ≡ (meta 2).size))
detect_override-print_stamp_example = detect_override-print_stamp (meta 1) (meta 2) refl refl

-- /p/out is built again, and depends on /p/in and on a new file.
abbrev again : List (ℕ × Text)
again = (b'm', codes "/p/in") ∷ (b'c', codes "/p/new") ∷ []

rebuild_lem_example :
    (dep_row 1 2 (rebuild world out again state).db.deps
      ≡ row_of world out 2 (added world out 2 again (zap_deps1 world out state) none))
    × (dep_row 2 3 (rebuild world out again state).db.deps ≡ dep_row 2 3 state.db.deps)
unfolding from_row
rebuild_lem_example = rebuild_lem world out again state 2 2 3 refl refl
