-- ===== src/Paths/DoFiles/Laws.antt =====
-- Which of the candidates is chosen.
use redo.Base.{◌≡◌, Bool, true, false, List, ◌∷◌, ◌++◌, All, Option, none, some}
use redo.Paths.Components.{join}
use redo.Paths.DoFiles.{DoFile}
use redo.Store.Stamps.{FileSystem, exists}

module _ (fs : FileSystem) where
  abbrev pub there : DoFile → Bool
  there d = exists fs (join d.dodir d.dofile)

  -- The candidate stands in the list, and those before it do not exist.
  abbrev pub IsFirst : List DoFile → Option DoFile → Type 0
  IsFirst ds none = All (λ (d : DoFile). there d ≡ false) ds
  IsFirst ds (some d) =
      (before : List DoFile) × (after : List DoFile) × (ds ≡ before ++ (d ∷ after))
      × (there d ≡ true)
      × All (λ (e : DoFile). there e ≡ false) before
