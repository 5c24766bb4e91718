-- ===== src/Builder/Script.antt =====
-- `find_do_for_target` and `find_do_for_target_no_deps` of redo_core/src/builder.rs: the .do file of
-- a target, with the dependencies that the search itself records.
pub mod Laws
use redo.Base.{
  ℕ, Bool, true, false, List, [], ◌∷◌, Text, Option, none, some, if◌then◌else◌, Result, ok, err,
}
use redo.Paths.Components.{join}
use redo.Paths.DoFiles.{DoFile, possible_do_files, first_existing}
use redo.Store.Rows.{File}
use redo.Store.Transactions.{State}
use redo.Store.Stamps.{exists}
use redo.Store.Files.{World, by_name, add_dep, set_static, save}

-- The directory, the .do file, the base name and the extension.
abbrev pub parts : DoFile → Text × Text × Text × Text
parts c = (c.dodir, c.dofile, c.basename, c.ext)

abbrev pub do_path : DoFile → Text
do_path c = join c.dodir c.dofile

abbrev pub Found : Type 0
Found = Result (Option (Text × Text × Text × Text)) × State

module _ (w : World) where
  -- The .do file that was found is made a static source.
  unfoldable pub make_static : DoFile → Result File → State → Found
  make_static c (err e) s = (err e, s)
  make_static c (ok dof) s = elim (set_static w dof) [
    | err e ↦ (err e, s)
    | ok g ↦ (ok (some (parts c)), save w g s)
  ]

  -- What follows the first `add_dep`.
  unfoldable pub after_dep : DoFile → Result (Unit {0}) → State → Found
  after_dep c (err e) s = (err e, s)
  after_dep c (ok u) s = let (r, t) = by_name w (do_path c) true s in make_static c r t

  unfoldable pub use_do_file : File → DoFile → State → Found
  use_do_file sf c s = let (r, t) = add_dep w sf b'm' (do_path c) s in after_dep c r t

  -- The next round, unless the dependency could not be recorded.
  unfoldable pub or_next : (State → Found) → Result (Unit {0}) → State → Found
  or_next more (err e) s = (err e, s)
  or_next more (ok u) s = more s

  unfoldable pub pass_over : (State → Found) → File → DoFile → State → Found
  pass_over more sf c s = let (r, t) = add_dep w sf b'c' (do_path c) s in or_next more r t

  unfoldable pub search_do : File → List DoFile → State → Found
  search_do sf [] s = (ok none, s)
  search_do sf (c ∷ cs) s = elim (exists w.fs (do_path c)) [
    | true ↦ use_do_file sf c s
    | false ↦ pass_over (search_do sf cs) sf c s
  ]

  unfoldable pub find_do_for_target : File → State → Found
  find_do_for_target sf s = search_do sf (possible_do_files sf.name w.base) s

  abbrev pub parts_of_some : Option DoFile → Option (Text × Text × Text × Text)
  parts_of_some none = none
  parts_of_some (some c) = some (parts c)

  unfoldable pub find_do_for_target_no_deps : File → Option (Text × Text × Text × Text)
  find_do_for_target_no_deps sf =
      parts_of_some (first_existing w.fs (possible_do_files sf.name w.base))
