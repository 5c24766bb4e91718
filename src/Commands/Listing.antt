-- ===== src/Commands/Listing.antt =====
-- The programs that list: bins/src/redo_sources.rs, bins/src/redo_targets.rs and
-- bins/src/redo_whichdo.rs. What is printed is a list of lines.
use redo.Base.{
  ℕ, Bool, List, [], ◌∷◌, map, Text, is_empty, text_leb, none, some, if◌then◌else◌, ◌==◌,
}
use redo.Paths.Components.{join}
use redo.Paths.DoFiles.{DoFile, possible_do_files}
use redo.Store.Rows.{FileRow, File, from_row}
use redo.Store.Transactions.{State}
use redo.Store.Stamps.{exists}
use redo.Store.Files
use redo.Store.Files.{World}
use redo.Builder.Script.{do_path}

-- `order by name`
unfoldable pub insert_row : FileRow → List FileRow → List FileRow
unfolding text_leb
insert_row r [] = r ∷ []
insert_row r (q ∷ rs) =
    let rest = insert_row r rs in if text_leb r.name q.name then r ∷ (q ∷ rs) else q ∷ rest

unfoldable pub rows_by_name : List FileRow → List FileRow
unfolding insert_row
rows_by_name [] = []
rows_by_name (r ∷ rs) = insert_row r (rows_by_name rs)

-- What a program prints, and its exit status.
abbrev pub Printed : Type 0
Printed = List Text × ℕ

module _ (w : World) where
  -- `state::files`
  unfoldable pub files : State → List File
  unfolding from_row rows_by_name
  files s = map (from_row w.runid) (rows_by_name s.db.files)

  -- The path of a file from the current directory, or else its name.
  unfoldable pub shown : File → Text
  unfolding join
  shown f = elim (w.diff_paths (join w.base f.name) w.cwd) [ none ↦ f.name | some rel ↦ rel ]

  unfoldable pub shown_if : (File → Bool) → List File → List Text
  unfolding shown
  shown_if p [] = []
  shown_if p (f ∷ fs) = let rest = shown_if p fs in if p f then shown f ∷ rest else rest

  unfoldable pub redo_sources : ℕ → State → Printed
  unfolding shown_if files Files.is_source
  redo_sources arguments s =
      if arguments == 1 then (shown_if (Files.is_source w) (files s), 0) else ([], 1)

  unfoldable pub redo_targets : ℕ → State → Printed
  unfolding shown_if files Files.is_target
  redo_targets arguments s =
      if arguments == 1 then (shown_if (Files.is_target w) (files s), 0) else ([], 1)

  abbrev pub also_print : Text → Printed → Printed
  also_print t (ts, status) = (t ∷ ts, status)

  -- The candidates up to the first one that exists.
  unfoldable pub which : List DoFile → Printed
  unfolding exists Files.difference
  which [] = ([], 1)
  which (c ∷ cs) =
      let line = Files.difference w (do_path c) w.cwd in
      let rest = also_print line (which cs) in
      if exists w.fs (do_path c) then (line ∷ [], 0) else rest

  unfoldable pub redo_whichdo : List Text → Printed
  unfolding is_empty join which possible_do_files
  redo_whichdo [] = ([], 1)
  redo_whichdo (want ∷ []) =
      if is_empty want then ([], 204) else which (possible_do_files (join w.cwd want) w.base)
  redo_whichdo (want ∷ more ∷ rest) = ([], 1)
