-- ===== src/Tests/BuildRuns.antt =====
-- `build_one`, the pools and the shuffle of redo_core/src/builder.rs, and the programs of bins/src
-- that a .do file calls.
use mathlib.Core.List.{List, Perm}
use redo.Base.{
  ℕ, ◌≡◌, refl, true, false, [], ◌∷◌, Text, codes, text_eq, Option, none, some, ok, pos, inr, inl,
  arith, if◌then◌else◌, to_string,
}
use redo.Base.Steps.{Ensures}
use redo.Store.Rows.{File, from_row}
use redo.Cycles
use redo.Paths.Components.{join}
use redo.Store.Tables.{row_by_id, row_by_name, insert_file}
use redo.Store.Stamps.{FileSystem, Metadata, print_stamp}
use redo.Store.Locks.{granted}
use redo.Store.Files
use redo.Builder.Build.{Machine, Os, Run, record_outcome}
use redo.Builder.Build.Laws.{key, IsReady}
use redo.Builder.Build.Outcome.{Recorded, record_outcome-Recorded}
use redo.Builder.Start.{Setting, build_or_keep, build_one}
use redo.Builder.Start.Keeps.{IsOverride, Untouched, IsBuilt, build_or_keep-Untouched}
use redo.Builder.Shuffle.{shuffle_in_place_with_seed, shuffle_in_place_with_seed-Perm}
use redo.Tests.Sample.{world, disk, state, out, meta, out_row}

-- A disk on which the calls work: the parts of a rename are a look at the old path and a removal.
abbrev at_path : {A : Type 0} → Text → A → (Text → A) → Text → A
at_path p a f q = if text_eq q p then a else f q

abbrev put : Text → Option Metadata → FileSystem → FileSystem
put p o fs = record { lstat = at_path p o fs.lstat; stat = at_path p o fs.stat }

abbrev os : Os
os = record {
  remove_file = λ p. put p none;
  durable_rename = λ p q fs. some (put p none (put q (fs.lstat p) fs));
  copy_output = λ p fs. some (put p (some (meta 9)) fs);
}

abbrev machine : Machine
machine = record { fs = world.fs; state = state }

abbrev a_run : Run
a_run = record { status = pos 0; out_size = 4; trace = none; machine = machine }

ready : IsReady (key out) machine.state
unfolding from_row row_by_id
ready = record { sane = refl; row = out_row; there = refl; named = refl }

record_outcome-Recorded_example :
    Ensures
      (record_outcome world os true false
        (codes "/p/out.redo.tmp")
        (codes "/p/out")
        a_run
        out
        (pos 0)
        machine)
      (λ final m. Recorded world os (key out) final m)
record_outcome-Recorded_example =
    record_outcome-Recorded world os true false (codes "/p/out.redo.tmp") (codes "/p/out") a_run out
      (pos 0) 100 machine refl ready

abbrev setting : Setting
setting = record {
  unlocked = false;
  strict = false;
  strict_fail = false;
  cycles = [];
  wait = granted;
  release = granted;
  read_prefix = λ d f fs. ok [];
  run_do = λ d f a b m. record { status = pos 0; out_size = 4; trace = none; machine = m };
}

-- `out` has another size than the recorded one.
abbrev overridden : File
overridden = record out { stamp = some (print_stamp (meta 3)) }

overridden-IsOverride : IsOverride world os setting overridden machine
unfolding from_row disk join
overridden-IsOverride = record {
  generated = refl;
  there = meta 2;
  on_disk = refl;
  no_dir = refl;
  no_link = refl;
  plain = refl;
  mark = inr (meta 3, refl, refl, inr (λ e. absurd (omega (arith, e))));
}

build_or_keep-Untouched_example :
    Untouched IsBuilt
      (build_or_keep world os setting (codes "/p/out") none overridden machine)
      machine
build_or_keep-Untouched_example =
    build_or_keep-Untouched world os setting (codes "/p/out") none overridden machine
      (inl overridden-IsOverride)

shuffle_in_place_with_seed-Perm_example :
    (u : List ℕ) × (shuffle_in_place_with_seed (1 ∷ 2 ∷ 3 ∷ []) 7 ≡ some u)
    × Perm u (1 ∷ 2 ∷ 3 ∷ [])
shuffle_in_place_with_seed-Perm_example = shuffle_in_place_with_seed-Perm (1 ∷ 2 ∷ 3 ∷ []) 7

builds_in : (build_one world os setting (codes "in") machine).0 ≡ ok (pos 0)
unfolding build_one row_by_name Files.stored_name insert_file Cycles.check disk
builds_in = refl

-- The output becomes the target, with the stamp of the copy.
records :
    (record_outcome world os false false
      (codes "/p/out.redo.tmp")
      (codes "/p/out")
      a_run
      out
      (pos 0)
      machine).0
    ≡ ok (pos 0)
unfolding record_outcome disk Files.refresh to_string
records = refl
