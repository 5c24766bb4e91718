-- ===== src/Builder/Start.antt =====
-- The first half of `build_one` of redo_core/src/builder.rs: the lock of the target, the targets that
-- are not built, and the call of the .do file. The wait for a slot of a pool is not modelled.
pub mod Keeps
use redo.Base.{
  ℕ, Bool, true, false, not, ◌&&◌, ◌||◌, List, [], ◌∷◌, ◌++◌, Text, codes, text_eq, Option, none,
  some, if◌then◌else◌, ℤ, pos, text_or, Result, ok, err, Error, cyclic,
}
use redo.Base.Steps.{M, ◌>>=◌, ◌>>◌, answer, update}
use redo.Paths.Components.{join}
use redo.Store.Rows.{File, is_some, stamp_missing}
use redo.Store.Transactions.{State, commit}
use redo.Store.Stamps.{FileSystem, Metadata, exists, detect_override}
use redo.Store.Files
use redo.Store.Files.{World}
use redo.Store.Locks
use redo.Store.Locks.{Lock, Fcntl, drop_lock}
use redo.Builder.Directive.{parse_redo_pool_directive}
use redo.Builder.Script.{find_do_for_target}
use redo.Builder.Build.{
  Machine, Os, Run, Steps, examine, on_state, do_state, do_disk, ask, now, record_outcome,
}

-- The settings of the process, what fcntl answers to the lock of the target, the text at the
-- beginning of a .do file, and the run of a .do file for a target and its name without extension.
pub record Setting : Type 0 where
  pub unlocked : Bool
  pub strict : Bool
  pub strict_fail : Bool
  pub cycles : Text
  pub wait : Fcntl
  pub release : Fcntl
  pub read_prefix : Text → Text → FileSystem → Result Text
  pub run_do : Text → Text → Text → Text → Machine → Run

-- Exit statuses.
abbrev pub all_well : ℤ
all_well = pos 0

abbrev pub no_rule : ℤ
no_rule = pos 1

abbrev pub cyclic_lock : ℤ
cyclic_lock = pos 208

-- A file that was generated is there, and was overridden already or differs from its stamp.
unfoldable pub is_overridden : File → Text → Bool
unfolding text_eq detect_override
is_overridden sf newstamp =
    sf.is_generated
    && not (text_eq newstamp stamp_missing)
    && (sf.is_override || is_some sf.stamp && detect_override (text_or [] sf.stamp) newstamp)

module _ (w : World) (os : Os) (c : Setting) where
  unfoldable pub persist_new_target_intent : Text → File → Steps File
  unfolding exists Files.save
  persist_new_target_intent target sf m =
      if exists m.fs target || sf.is_generated
      then (ok sf, m)
      else (let made = record sf { is_generated = true; is_override = false } in
          (do do_state w os (λ v s. commit (Files.save v made s)); answer (ok made)) m)

  unfoldable pub save_commit : File → Steps (Unit {0})
  unfolding Files.save
  save_commit sf = do_state w os (λ v s. commit (Files.save v sf s))

  -- `if let Some(l) = lock.as_mut() { l.unlock()?; }`
  unfoldable pub unlock_target : Option Lock → Steps (Unit {0})
  unfolding Locks.unlock
  unlock_target none = answer (ok tt)
  unlock_target (some l) =
      on_state w os (λ v s. let (r, m, t) = Locks.unlock c.release l s in (r, t))

  -- A file that the user changed becomes an override.
  unfoldable pub make_override : Option Lock → File → Steps ℤ
  unfolding Files.set_override save_commit unlock_target
  make_override l sf = do
    g ← ask w os (λ m. Files.set_override (now w os m) sf)
    save_commit g
    unlock_target l
    answer (ok all_well)

  unfoldable pub keep_override : Option Lock → File → Steps ℤ
  unfolding make_override unlock_target
  keep_override l sf =
      if sf.is_override then (do unlock_target l; answer (ok all_well)) else make_override l sf

  unfoldable pub keep_static : Option Lock → File → Steps ℤ
  unfolding Files.set_static save_commit unlock_target
  keep_static l sf = do
    g ← ask w os (λ m. Files.set_static (now w os m) sf)
    save_commit g
    unlock_target l
    answer (ok all_well)

  unfoldable pub fail_no_rule : Option Lock → File → Steps ℤ
  unfolding Files.set_failed save_commit unlock_target
  fail_no_rule l sf = do
    g ← ask w os (λ m. Files.set_failed (now w os m) sf)
    save_commit g
    unlock_target l
    answer (ok no_rule)

  -- The run of the .do file, and what is recorded of it.
  unfoldable pub run_script :
      Text → Option Lock → File → Option Metadata → Text × Text × Text × Text → Steps ℤ
  unfolding join parse_redo_pool_directive record_outcome examine unlock_target
  run_script target l sf before (dodir, dofile, basename, ext) =
      let arg1 = basename ++ ext in
      let tmpname = join dodir (arg1 ++ codes ".redo.tmp") in
      do
        pool ← ask w os (λ m. parse_redo_pool_directive (c.read_prefix dodir dofile m.fs))
        do_disk w os (os.remove_file tmpname)
        do_state w os (λ v. commit)
        run ← (λ m. let r = c.run_do dodir dofile arg1 basename m in (ok r, r.machine))
        status ← (λ m. (
          ok (examine run.status before (m.fs.lstat target) run.out_size (m.fs.lstat tmpname)),
          m,
        ))
        final ← record_outcome w os c.strict c.strict_fail tmpname target run sf status
        unlock_target l
        answer (ok final)

  unfoldable pub on_do_file :
      Text → Option Lock → File → Option Metadata → Option (Text × Text × Text × Text) → Steps ℤ
  unfolding exists keep_static fail_no_rule run_script
  on_do_file target l sf before (some parts) m = run_script target l sf before parts m
  on_do_file target l sf before none m =
      if exists m.fs target then keep_static l sf m else fail_no_rule l sf m

  -- A target that is built: its dependencies are marked, and its .do file is looked for.
  unfoldable pub build_target : Text → Option Lock → File → Steps ℤ
  unfolding persist_new_target_intent Files.zap_deps1 find_do_for_target on_do_file
  build_target target l sf = do
    made ← persist_new_target_intent target sf
    do_state w os (λ v. Files.zap_deps1 v made)
    before ← ask w os (λ m. ok (m.fs.lstat target))
    parts ← on_state w os (λ v. find_do_for_target v made)
    on_do_file target l made before parts

  unfoldable pub build_or_keep : Text → Option Lock → File → Steps ℤ
  unfolding is_overridden Files.stamp_now exists keep_override keep_static build_target
  build_or_keep target l sf m =
      if is_overridden sf (Files.stamp_now (now w os m) sf)
      then keep_override l sf m
      else if exists m.fs target && not sf.is_generated
      then keep_static l sf m
      else build_target target l sf m

  -- A record that waited for its lock is read again.
  unfoldable pub refreshed : Option Lock → File → Steps File
  unfolding Files.refresh
  refreshed none sf = answer (ok sf)
  refreshed (some l) sf = on_state w os (λ v. Files.refresh v sf)

  unfoldable pub build_locked : Option Lock → File → Steps ℤ
  unfolding refreshed join build_or_keep
  build_locked l sf = do fresh ← refreshed l sf; build_or_keep (join w.base sf.name) l fresh

  abbrev pub drop_in : Lock → Machine → Machine
  drop_in l m = record m { state = drop_lock c.release l m.state }

  -- A lock is dropped at the end: it was unlocked, unless an error came before.
  abbrev pub dropped : Lock → Result ℤ × Machine → Result ℤ × Machine
  dropped l (ok rv, m) = (ok rv, drop_in (record l { owned = false }) m)
  dropped l (err e, m) = (err e, drop_in l m)

  -- `waitlock`, where a cycle is an exit status of its own.
  unfoldable pub waited_for : File → Result (Unit {0}) × Lock × State → Steps ℤ
  unfolding build_locked drop_lock
  waited_for sf (ok u, l, s) m = dropped l (build_locked (some l) sf (record m { state = s }))
  waited_for sf (err cyclic, l, s) m = (ok cyclic_lock, drop_in l (record m { state = s }))
  waited_for sf (err e, l, s) m = (err e, drop_in l (record m { state = s }))

  unfoldable pub with_new_lock : File → Result Lock × State → Steps ℤ
  unfolding Locks.waitlock waited_for
  with_new_lock sf (err e, s) m = (err e, record m { state = s })
  with_new_lock sf (ok l, s) m = waited_for sf (Locks.waitlock c.cycles c.wait l s) m

  unfoldable pub build_one : Text → Steps ℤ
  unfolding Files.by_name Locks.new build_locked with_new_lock
  build_one t = do
    sf ← on_state w os (λ v. Files.by_name v t true)
    (λ m.
        if c.unlocked then build_locked none sf m else with_new_lock sf (Locks.new sf.id m.state) m)
