-- ===== src/Builder/Build.antt =====
-- `build_one` of redo_core/src/builder.rs: one target is built by its .do file, and what came of it
-- is recorded. The calls that change the disk are those of the operating system; the run of the
-- .do file, by the job server, is one step that gives a new disk and a new state.
pub mod Laws
pub mod Outcome
use redo.Base.{
  ℕ, Bool, true, false, not, ◌&&◌, ◌||◌, List, [], ◌∷◌, ◌++◌, Text, codes, text_eq, is_empty,
  Option, none, some, ◌==◌, if◌then◌else◌, ltb, ℤ, pos, text_or, ltb_ℤ, Result, ok, err, Error,
  cyclic,
}
use redo.Base.Steps.{M, ◌>>=◌, ◌>>◌, answer, update}
use redo.Paths.Components.{join}
use redo.Store.Rows.{File, is_some, same_stamp, stamp_missing}
use redo.Store.Transactions.{State, commit}
use redo.Store.Stamps.{FileSystem, Metadata, exists, detect_override}
use redo.Store.Files
use redo.Store.Files.{World}
use redo.Jobserver.Loops.{is_zero}
use redo.Builder.Script.{find_do_for_target}
use redo.Builder.Trace.{evaluate_strict_readtrace, StrictReadTraceResult}

-- The disk and the connection to the database.
pub record Machine : Type 0 where
  pub fs : FileSystem
  pub state : State

-- Calls of the operating system: `remove_file`, whose failure is ignored, `rename` with the syncs
-- around it, and the copy of the captured output to a new file. None is a failure.
pub record Os : Type 0 where
  pub remove_file : Text → FileSystem → FileSystem
  pub durable_rename : Text → Text → FileSystem → Option FileSystem
  pub copy_output : Text → FileSystem → Option FileSystem

-- What a run of the .do file left: its exit status, the size of the captured output, and the entries
-- of the trace file, if they can be read.
pub record Run : Type 0 where
  pub status : ℤ
  pub out_size : ℕ
  pub trace : Option (List Text)
  pub machine : Machine

abbrev pub Steps : Type 0 → Type 0
Steps A = M Machine A

-- The errors of `final_rv`.
abbrev pub wrote_target : ℤ
wrote_target = pos 206

abbrev pub both_outputs : ℤ
both_outputs = pos 207

abbrev pub cannot_place : ℤ
cannot_place = pos 209

abbrev pub undeclared_reads : ℤ
undeclared_reads = pos 218

-- `mtime()` is in whole seconds.
abbrev pub mtime : Metadata → ℤ
mtime m = m.mtime_secs

-- Was the target written to, and is no directory?
unfoldable pub changed_directly : Option Metadata → Option Metadata → Bool
changed_directly before none = false
changed_directly none (some a) = not a.is_dir
changed_directly (some b) (some a) =
    (ltb_ℤ (mtime b) (mtime a) || ltb_ℤ (mtime a) (mtime b)) && not a.is_dir

-- The checks of a run that succeeded.
unfoldable pub examine : ℤ → Option Metadata → Option Metadata → ℕ → Option Metadata → ℤ
unfolding changed_directly
examine rv before after out_size tmp =
    if not (is_zero rv)
    then rv
    else if is_some tmp && ltb 0 out_size
    then both_outputs
    else if changed_directly before after
    then wrote_target
    else rv

module _ (w : World) (os : Os) where
  -- The surroundings as they are now.
  abbrev pub now : Machine → World
  now m = record w { fs = m.fs }

  -- Calls on the database alone, and on the disk alone.
  abbrev pub on_state : {A : Type 0} → (World → State → Result A × State) → Steps A
  on_state g m = let (r, t) = g (now m) m.state in (r, record m { state = t })

  abbrev pub do_state : (World → State → State) → Steps (Unit {0})
  do_state g = update (λ m. record m { state = g (now m) m.state })

  abbrev pub do_disk : (FileSystem → FileSystem) → Steps (Unit {0})
  do_disk g = update (λ m. record m { fs = g m.fs })

  abbrev pub ask : {A : Type 0} → (Machine → Result A) → Steps A
  ask g m = (g m, m)

  -- A call that may fail gives the exit status.
  abbrev pub placed : Machine → Option FileSystem → Result ℤ × Machine
  placed m none = (ok cannot_place, m)
  placed m (some fs) = (ok (pos 0), record m { fs = fs })

  -- The output is in the temporary file, or is put there.
  unfoldable pub keep_output : ℕ → Text → Steps ℤ
  unfolding exists
  keep_output out_size tmpname m =
      if ltb 0 out_size && not (is_some (m.fs.lstat tmpname))
      then placed m (os.copy_output tmpname m.fs)
      else (ok (pos 0), m)

  -- The temporary file becomes the target; without one, the target is removed.
  unfoldable pub replace_target : Text → Text → ℤ → Steps ℤ
  unfolding exists
  replace_target tmpname target rv m =
      if is_zero rv && exists m.fs tmpname
      then placed m (os.durable_rename tmpname target m.fs)
      else (ok rv, record m { fs = os.remove_file target m.fs })

  unfoldable pub refresh_if : ℤ → File → Steps File
  refresh_if rv sf = if is_zero rv then on_state (λ v. Files.refresh v sf) else answer (ok sf)

  -- The new state of the record: a stamp by redo-stamp in this run is kept.
  unfoldable pub new_record : World → File → Result File
  unfolding Files.is_checked Files.is_changed Files.stamp_now Files.set_changed
  new_record v sf =
      let made = record sf { is_generated = true; is_override = false } in
      if Files.is_checked v made || Files.is_changed v made
      then ok (record made { stamp = some (Files.stamp_now v made) })
      else elim (Files.update_stamp v (record made { csum = none }) false) [
        | err e ↦ err e
        | ok g ↦ ok (Files.set_changed v g)
      ]

  abbrev pub entries_of : Option (List Text) → List Text
  entries_of none = codes "TRACE_UNAVAILABLE:read_failed" ∷ []
  entries_of (some es) = es

  -- The status after the check of the trace, which reports only, unless it may fail the build.
  unfoldable pub strict_status : Bool → StrictReadTraceResult → ℤ → ℤ
  unfolding is_empty
  strict_status strict_fail r rv =
      if strict_fail && (not r.trace_ok || not (is_empty r.violations))
      then undeclared_reads
      else rv

  unfoldable pub check_trace : Bool → Bool → Option (List Text) → File → ℤ → Steps ℤ
  unfolding Files.deps strict_status
  check_trace strict strict_fail trace sf rv m =
      if strict
      then (
        ok (
            strict_status strict_fail
              (evaluate_strict_readtrace w.base (Files.deps (now m) sf m.state) (entries_of trace))
              rv),
        m,
      )
      else (ok rv, m)

  -- Either way the record is saved, and the dependencies that were not named again are dropped.
  unfoldable pub save_good : File → Steps (Unit {0})
  unfolding Files.save
  save_good sf = do_state (λ v s. commit (Files.save v sf s))

  unfoldable pub save_failed : Text → File → Steps (Unit {0})
  unfolding Files.set_failed Files.zap_deps2 Files.save
  save_failed tmpname sf = do
    do_disk (os.remove_file tmpname)
    g ← ask (λ m. Files.set_failed (now m) sf)
    do_state (λ v s. commit (Files.save v g (Files.zap_deps2 v g s)))

  unfoldable pub save_outcome : Text → File → ℤ → Steps ℤ
  unfolding save_good save_failed
  save_outcome tmpname sf rv =
      if is_zero rv
      then (do save_good sf; answer (ok rv))
      else (do save_failed tmpname sf; answer (ok rv))

  -- The old dependencies are dropped, and the trace is checked.
  unfoldable pub settle_record : Bool → Bool → Text → Option (List Text) → ℤ → File → Steps ℤ
  unfolding Files.zap_deps2 check_trace save_outcome
  settle_record strict strict_fail tmpname trace rv made = do
    do_state (λ v. Files.zap_deps2 v made)
    final ← check_trace strict strict_fail trace made rv
    save_outcome tmpname made final

  unfoldable pub record_placed : Bool → Bool → Text → Option (List Text) → File → ℤ → Steps ℤ
  unfolding refresh_if new_record settle_record
  record_placed strict strict_fail tmpname trace sf rv = do
    fresh ← refresh_if rv sf
    made ← ask (λ m. new_record (now m) fresh)
    settle_record strict strict_fail tmpname trace rv made

  -- What follows the run, from its status on.
  unfoldable pub record_outcome : Bool → Bool → Text → Text → Run → File → ℤ → Steps ℤ
  unfolding keep_output replace_target record_placed save_outcome
  record_outcome strict strict_fail tmpname target run sf rv =
      if is_zero rv
      then (do
        copied ← keep_output run.out_size tmpname
        there ← replace_target tmpname target copied
        record_placed strict strict_fail tmpname run.trace sf there)
      else save_outcome tmpname sf rv
