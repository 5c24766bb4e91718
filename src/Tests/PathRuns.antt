-- ===== src/Tests/PathRuns.antt =====
-- redo_core/src/paths.rs
use mathlib.Core.List.{flat_map}
use redo.Base.{◌≡◌, refl, Text, text_eq, codes, Option, none, some, if◌then◌else◌}
use redo.Paths.DoFiles.{possible_do_files, find_do_file}
use mathlib.Core.List.{List}
use redo.Store.Stamps.{Metadata, FileSystem}
use redo.Tests.Sample.{meta}

-- One .do file stands two directories up.
unfoldable do_disk : Text → Option Metadata
unfolding text_eq
do_disk path = if text_eq path (codes "/p/default.gz.do") then some (meta 1) else none

abbrev do_files : FileSystem
do_files = record { lstat = do_disk; stat = do_disk }

chosen :
    find_do_file do_files (codes "q/a.tar.gz") (codes "/p")
    ≡ some (record {
      dodir = codes "/p";
      dofile = codes "default.gz.do";
      basedir = codes "q";
      basename = codes "q/a.tar";
      ext = codes ".gz";
    })
unfolding find_do_file possible_do_files do_disk flat_map
chosen = refl
