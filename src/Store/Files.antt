-- ===== src/Store/Files.antt =====
-- The methods of `File` in redo_core/src/state.rs. A method on `&mut self` gives the new record;
-- what it does to the state comes back beside its result, also beside an error.
pub mod Rebuild
use redo.Base.{
  ℕ, Bool, true, false, not, ◌&&◌, ◌||◌, List, [], Text, codes, text_eq, is_empty, Option, none,
  some, if◌then◌else◌, ◌>>=◌, Result, ok, err, no_row, missing, strip_prefix,
}
use redo.Paths.Components.{is_absolute, join, parent, file_name}
use redo.Paths.Normalize.{normalize_path}
use redo.Store.Rows.{FileRow, File, always, stamp_missing, is_some, reached, same_stamp, from_row}
use redo.Store.Tables.{
  row_by_id, row_by_name, update_row, insert_file, mark_deps, delete_marked, replace_dep,
  select_deps,
}
use redo.Store.Transactions.{State, write}
use redo.Store.Stamps.{FileSystem, read_stamp}

-- What a process sees of its surroundings: the run id and the directory `base` of the environment,
-- the current directory, the file system, and three parts that are not of this repository:
-- `canonicalize` of the operating system, `diff_paths` of the crate pathdiff, and the row id that
-- sqlite gives to a new row.
pub record World : Type 0 where
  pub runid : Option ℕ
  pub base : Text
  pub cwd : Text
  pub fs : FileSystem
  pub canonicalize : Text → Option Text
  pub diff_paths : Text → Text → Option Text
  pub next_rowid : List FileRow → ℕ

-- `unwrap_or(Path::new(""))`
abbrev pub unwrap_text : Option Text → Text
unwrap_text none = []
unwrap_text (some p) = p

module _ (w : World) where
  -- The directory is resolved by the operating system if it can be, and otherwise lexically.
  unfoldable pub real_directory : Text → Text
  unfolding normalize_path
  real_directory dname = elim (w.canonicalize dname) [ none ↦ normalize_path dname | some p ↦ p ]

  unfoldable pub realdirpath : Text → Text
  unfolding is_empty real_directory join parent file_name
  realdirpath t =
      let dname = unwrap_text (parent t) in
      let fname = unwrap_text (file_name t) in
      if is_empty dname then fname else join (real_directory dname) fname

  unfoldable pub absolute : Text → Text
  unfolding is_absolute join
  absolute t = if is_absolute t then t else join w.cwd t

  -- `diff_paths(&t, &b).unwrap_or(t)`
  unfoldable pub difference : Text → Text → Text
  difference t b = elim (w.diff_paths t b) [ none ↦ t | some d ↦ d ]

  unfoldable pub relpath : Text → Text → Text
  unfolding absolute realdirpath normalize_path difference
  relpath t base =
      difference (normalize_path (realdirpath (absolute t)))
        (normalize_path (realdirpath (absolute base)))

  -- The name under which `by_name` stores a path.
  unfoldable pub stored_name : Text → Text
  unfolding text_eq absolute realdirpath normalize_path difference
  stored_name name =
      if text_eq name always
      then always
      else difference (normalize_path (realdirpath (absolute name)))
          (normalize_path (realdirpath w.base))

  -- `from_row` of a row that was found, or the error of a missing one.
  unfoldable pub found : Option FileRow → State → Result File × State
  unfolding from_row
  found none s = (err no_row, s)
  found (some r) s = (ok (from_row w.runid r), s)

  unfoldable pub by_name : Text → Bool → State → Result File × State
  by_name name allow_add s =
      let n = stored_name name in
      let row = row_by_name n s.db.files in
      if not (is_some row) && allow_add && not (is_empty n)
      then (let t = write (λ db. record db { files = insert_file w.next_rowid n db.files }) s in
          found (row_by_name n t.db.files) t)
      else found row s

  unfoldable pub refresh : File → State → Result File × State
  unfolding row_by_id found
  refresh f s = found (row_by_id f.id s.db.files) s

  unfoldable pub save : File → State → State
  unfolding update_row write
  save f s = write (λ db. record db { files = update_row f db.files }) s

  unfoldable pub set_checked : File → File
  set_checked f = record f { checked_runid = w.runid }

  unfoldable pub set_checked_save : File → State → File × State
  unfolding set_checked save
  set_checked_save f s = let g = set_checked f in (g, save g s)

  unfoldable pub set_changed : File → File
  set_changed f = record f { changed_runid = w.runid; failed_runid = none; is_override = false }

  unfoldable pub stamp_now : File → Text
  unfolding read_stamp
  stamp_now f = read_stamp w.fs w.base f.name

  unfoldable pub update_stamp : File → Bool → Result File
  unfolding stamp_now text_eq set_changed
  update_stamp f must_exist =
      let newstamp = stamp_now f in
      if must_exist && text_eq newstamp stamp_missing
      then err missing
      else if text_eq (unwrap_text f.stamp) newstamp
      then ok f
      else ok (set_changed (record f { stamp = some newstamp }))

  unfoldable pub set_failed : File → Result File
  unfolding update_stamp same_stamp
  set_failed f = do
    g ← update_stamp f false
    ok (record g { failed_runid = w.runid; is_generated = not (same_stamp g.stamp stamp_missing) })

  unfoldable pub set_static : File → Result File
  unfolding update_stamp
  set_static f = do
    g ← update_stamp f true
    ok (record g { failed_runid = none; is_override = false; is_generated = false })

  unfoldable pub set_override : File → Result File
  unfolding update_stamp
  set_override f = do
    g ← update_stamp f false
    ok (record g { failed_runid = none; is_override = true })

  unfoldable pub is_checked : File → Bool
  is_checked f = reached f.checked_runid w.runid

  unfoldable pub is_changed : File → Bool
  is_changed f = reached f.changed_runid w.runid

  unfoldable pub is_failed : File → Bool
  is_failed f = reached f.failed_runid w.runid

  unfoldable pub is_source : File → Bool
  unfolding stamp_now same_stamp is_failed text_eq strip_prefix
  is_source f =
      let newstamp = stamp_now f in
      let gone = text_eq newstamp stamp_missing in
      let same = same_stamp f.stamp newstamp in
      if is_some (strip_prefix (codes "//") f.name)
      then false
      else if f.is_generated && (not (is_failed f) || not gone) && not f.is_override && same
      then false
      else if (not f.is_generated || not same) && gone
      then false
      else true

  unfoldable pub is_target : File → Bool
  unfolding is_source
  is_target f = if not f.is_generated then false else not (is_source f)

  unfoldable pub deps : File → State → List (ℕ × File)
  unfolding select_deps
  deps f s =
      if f.is_override || not f.is_generated
      then []
      else select_deps w.runid f.id s.db.files s.db.deps

  unfoldable pub zap_deps1 : File → State → State
  unfolding write mark_deps
  zap_deps1 f s = write (λ db. record db { deps = mark_deps f.id db.deps }) s

  unfoldable pub zap_deps2 : File → State → State
  unfolding write delete_marked
  zap_deps2 f s = write (λ db. record db { deps = delete_marked f.id db.deps }) s

  unfoldable pub replaced : File → ℕ → Result File → State → Result (Unit {0}) × State
  unfolding write replace_dep
  replaced f mode (err e) s = (err e, s)
  replaced f mode (ok src) s =
      (ok tt, write (λ db. record db { deps = replace_dep f.id mode src.id db.deps }) s)

  unfoldable pub add_dep : File → ℕ → Text → State → Result (Unit {0}) × State
  add_dep f mode dep s = let (r, t) = by_name dep true s in replaced f mode r t
