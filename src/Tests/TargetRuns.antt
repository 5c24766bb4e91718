-- ===== src/Tests/TargetRuns.antt =====
-- bins/src/redo_always.rs and bins/src/redo_stamp.rs
use redo.Base.{◌≡◌, refl, ◌≢◌, none, some, ◌∷◌, ok, codes, arith, text_eq}
use redo.Store.Rows.{FileRow, File, always, save_row, from_row}
use redo.Store.Tables.{row_by_id, row_by_name, update_row, replace_dep}
use redo.Store.Transactions.{State, write, commit}
use redo.Store.Files
use redo.Store.Files.{World}
use redo.Deps.{clean, result_of}
use redo.Deps.Plan.{empty_cache, isdirty_readonly_default}
use redo.Commands.Target.{stamp_target, done, depend_on_always, always_changed}
use redo.Builder.Build.{Os, new_record}
use redo.Base.Steps.{and_then, answer}
use redo.Commands.Target.Stamped.{built_record, stamp_target-Keeps}
use redo.Commands.Target.Dirty.{depend_on_always-NotClean}
use redo.Tests.Sample.{world, state, row, db, out, out_row}
use redo.Tests.WalkRuns.{empty_cache-IsSound}

abbrev always_row : FileRow
always_row = row 4 always none none none

-- The sample with a row of //ALWAYS, as a new database has it.
abbrev began : State
began = record state { db = record db { files = always_row ∷ db.files } }

abbrev next_run : World
next_run = record world { runid = some 200 }

abbrev out_later : File
out_later = from_row (some 200) (save_row out out_row)

depend_on_always-NotClean_example :
    ((depend_on_always world out began).0 ≡ ok done)
    × (result_of
          (isdirty_readonly_default next_run
            (depend_on_always world out began).1
            out_later
            200
            empty_cache).0
        ≢ ok clean)
unfolding depend_on_always always_changed Files.save Files.add_dep Files.replaced Files.by_name
    Files.found Files.stored_name write replace_dep commit from_row save_row row_by_id row_by_name
    update_row text_eq
depend_on_always-NotClean_example =
    depend_on_always-NotClean world next_run out out_later began always_row 200 200 empty_cache refl
      refl refl refl refl refl refl refl (omega arith)
      (empty_cache-IsSound next_run (depend_on_always world out began).1)

abbrev no_changes : Os
no_changes = record {
  remove_file = λ p d. d;
  durable_rename = λ p q d. some d;
  copy_output = λ p d. some d;
}

stamp_target-Keeps_example :
    ((stamp_target world (codes "abc") out state).0 ≡ ok done)
    × (and_then
          (λ (g : File). answer (new_record world no_changes world g))
          (Files.refresh world out (stamp_target world (codes "abc") out state).1)
        ≡ (
          ok (built_record world out (codes "abc") out_row),
          (stamp_target world (codes "abc") out state).1,
        ))
unfolding row_by_id text_eq from_row
stamp_target-Keeps_example =
    stamp_target-Keeps world out (codes "abc") out_row no_changes state 100 refl refl refl refl
