-- ===== src/Deps/Fresh.antt =====
-- What it means for a file to be up to date, independently of the walk: `Fresh` follows the
-- recorded dependencies without cache, cycle check or early exit.
pub mod Always
pub mod Cache
pub mod Decides
pub mod Ends
use mathlib.Core.List.{Memᴰ}
use redo.Base.{◌⊎◌, ℕ, ◌≤◌, ◌≡◌, Bool, true, false, List, [], ◌∷◌, Option, none, some, ◌==◌}
use redo.Paths.Components.{join}
use redo.Store.Rows.{FileRow, File, is_some, unwrap_or, same_stamp, from_row}
use redo.Store.Tables.{row_by_id}
use redo.Store.Transactions.{State}
use redo.Store.Stamps.{exists}
use redo.Store.Files
use redo.Store.Files.{World}
use redo.Deps.{mode_c, mode_m, newest}

module _ (w : World) (s : State) where
  mutual
    -- Built successfully, unchanged on disk, with dependencies that are in order.
    pub data Fresh : File → Type 0 where
      fresh :
          {f : File}
          → f.failed_runid ≡ none
          → is_some f.changed_runid ≡ true
          → same_stamp f.stamp (Files.stamp_now w f) ≡ true
          → FreshDeps f (Files.deps w f s)
          → Fresh f

    pub data FreshDeps : File → List (ℕ × File) → Type 0 where
      end : {f : File} → FreshDeps f []
      dep :
          {f : File} {mode : ℕ} {g : File} {ds : List (ℕ × File)}
          → FreshDep f mode g
          → FreshDeps f ds
          → FreshDeps f ((mode, g) ∷ ds)

    -- A file that must not be there is not there; one that must be built is fresh, and has not
    -- changed since the target was built or checked; other modes do not count.
    pub data FreshDep : File → ℕ → File → Type 0 where
      absent :
          {f : File} {mode : ℕ} {g : File}
          → mode == mode_c ≡ true
          → exists w.fs (join w.base g.name) ≡ false
          → FreshDep f mode g
      built :
          {f : File} {mode : ℕ} {g : File}
          → mode == mode_c ≡ false
          → mode == mode_m ≡ true
          → unwrap_or 0 g.changed_runid ≤ newest f
          → Fresh g
          → FreshDep f mode g
      ignored :
          {f : File} {mode : ℕ} {g : File}
          → mode == mode_c ≡ false
          → mode == mode_m ≡ false
          → FreshDep f mode g

  -- Fresh, and not changed after `mx`.
  abbrev pub UpToDate : File → ℕ → Type 0
  UpToDate f mx = (unwrap_or 0 f.changed_runid ≤ mx) × Fresh f

-- What a file must have built before it, by its recorded dependencies: one of them, or one of a file
-- that it needs.
pub data Needs (w : World) (s : State) : File → File → Type 0 where
  direct : {f g : File} → Memᴰ (mode_m, g) (Files.deps w f s) → Needs w s f g
  later : {f g h : File} → Needs w s f g → Memᴰ (mode_m, h) (Files.deps w g s) → Needs w s f h

-- A file, or one that it needs, needs itself.
abbrev pub IsCyclic : World → State → File → Type 0
IsCyclic w s f = (g : File) × ((f ≡ g) ⊎ Needs w s f g) × Needs w s g g

-- The record that a row of the table stands for.
abbrev pub as_file : World → Option FileRow → Option File
as_file w none = none
as_file w (some r) = some (from_row w.runid r)

abbrev pub file_of : World → State → ℕ → Option File
file_of w s i = as_file w (row_by_id i s.db.files)

-- The record of a file is that of its row, as `by_name`, `refresh` and `deps` give it.
abbrev pub IsRow : World → State → File → Type 0
IsRow w s f = file_of w s f.id ≡ some f
