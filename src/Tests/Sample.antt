-- ===== src/Tests/Sample.antt =====
-- A small project: the target `out` depends on the source `in` and on the absence of `gone`.
use redo.Base.{
  pos, ℕ, ◌+◌, false, [], ◌∷◌, Text, codes, text_eq, Option, none, some, if◌then◌else◌, length,
}
use redo.Store.Rows.{FileRow, File, from_row}
use redo.Store.Tables.{Db}
use redo.Store.Transactions.{State}
use redo.Store.Stamps.{Metadata, print_stamp}
use redo.Store.Files.{World}
use redo.Deps.{Walk}

abbrev pub meta : ℕ → Metadata
meta size = record {
  is_dir = false;
  is_symlink = false;
  mtime = codes "17.000000";
  mtime_secs = pos 17;
  size = size;
  ino = 5;
  mode = 420;
  uid = 0;
  gid = 0;
}

-- /p/in and /p/out exist.
unfoldable pub disk : Text → Option Metadata
unfolding text_eq
disk path =
    if text_eq path (codes "/p/in")
    then some (meta 1)
    else if text_eq path (codes "/p/out")
    then some (meta 2)
    else none

abbrev pub world : World
world = record {
  runid = some 100;
  base = codes "/p";
  cwd = codes "/p";
  fs = record { lstat = disk; stat = disk };
  canonicalize = λ p. some p;
  diff_paths = λ t b. none;
  next_rowid = λ rs. length rs + 1;
}

abbrev pub row : ℕ → Text → Option ℕ → Option ℕ → Option Text → FileRow
row i n generated changed stamp = record {
  id = i;
  name = n;
  is_generated = generated;
  is_override = none;
  checked_runid = none;
  changed_runid = changed;
  failed_runid = none;
  stamp = stamp;
  csum = none;
}

abbrev pub out_row : FileRow
out_row = row 1 (codes "out") (some 1) (some 50) (some (print_stamp (meta 2)))

abbrev pub in_row : FileRow
in_row = row 2 (codes "in") (some 0) (some 40) (some (print_stamp (meta 1)))

abbrev pub gone_row : FileRow
gone_row = row 3 (codes "gone") none none none

abbrev pub db : Db
db = record {
  files = out_row ∷ in_row ∷ gone_row ∷ [];
  deps =
      record { target = 1; source = 2; mode = b'm'; delete_me = 0 }
      ∷ record { target = 1; source = 3; mode = b'c'; delete_me = 0 }
      ∷ [];
}

abbrev pub state : State
state = record {
  db = db;
  committed = db;
  insane = false;
  in_tx = false;
  wrote = 0;
  locks_held = [];
}

abbrev pub out : File
out = from_row (some 100) out_row

abbrev pub walk : Walk
walk = record { state = state; warned = [] }
