-- ===== src/Tests/BuilderRuns.antt =====
-- redo_core/src/builder.rs
use mathlib.Core.List.{flat_map}
use redo.Base.{
  ◌%◌, ℕ, ◌+◌, ◌*◌, ◌^◌, ◌<◌, ◌≡◌, ◌≢◌, ◌↔◌, refl, List, [], arith, Text, codes, Option, none, some,
  ok, text_eq, if◌then◌else◌,
}
use redo.Paths.DoFiles.{possible_do_files}
use redo.Store.Rows.{from_row}
use redo.Store.Tables.{row_by_name, insert_file}
use redo.Store.Stamps.{Metadata, exists}
use redo.Store.Files.{World}
use redo.Store.Files
use redo.Builder.Pool.{fnv1a64, bucket, log_lock_magic, pool_slot_fid, pool_slot_fid_lem}
use redo.Builder.Script.{
  find_do_for_target, find_do_for_target_no_deps, search_do, use_do_file, pass_over, or_next,
  after_dep, make_static,
}
use redo.Builder.Script.Laws.{asked, find_do_for_target_lem}
use redo.Store.Tables.Laws.{live, dep_row}
use redo.Store.Tables.{delete_marked}
use redo.Store.Files.Rebuild.{row_of, added}
use redo.Tests.Sample.{world, state, out, meta}

abbrev ascii : Text → List ℕ
ascii s = s

-- FNV-1a of "a".
hash : fnv1a64 ascii (codes "a") ≡ 12638187200555641996
unfolding fnv1a64
hash = refl

pool_slot_fid_lem_example :
    let a = (536870912 + bucket ascii (codes "link") * 65536 + 3) % 2 ^ 64 in
    let b = (536870912 + bucket ascii (codes "cc") * 65536 + 4) % 2 ^ 64 in
    ((a ≡ b) ↔ ((bucket ascii (codes "link") ≡ bucket ascii (codes "cc")) × (◌≡◌ {A = ℕ} 3 4)))
    × (a < 2 ^ 63)
    × (a ≢ 7)
    × (a ≢ log_lock_magic + 7)
unfolding pool_slot_fid
pool_slot_fid_lem_example =
    pool_slot_fid_lem ascii (codes "link") (codes "cc") 3 4 _ _ 7 (omega arith) (omega arith) refl
      refl (omega arith)

-- A project whose one .do file is for all targets.
unfoldable script_disk : Text → Option Metadata
unfolding text_eq
script_disk path = if text_eq path (codes "/p/default.do") then some (meta 1) else none

abbrev project : World
project = record world { fs = record { lstat = script_disk; stat = script_disk } }

abbrev answer : Option (Text × Text × Text × Text)
answer = some (codes "/p", codes "default.do", codes "out", [])

answered : (find_do_for_target project out state).0 ≡ ok answer
unfolding find_do_for_target search_do use_do_file after_dep make_static possible_do_files exists
    script_disk from_row pass_over or_next Files.add_dep Files.replaced Files.by_name row_by_name
    Files.stored_name Files.found insert_file flat_map Files.set_static
answered = refl

find_do_for_target_lem_example :
    (answer ≡ find_do_for_target_no_deps project out)
    × (live 1 2 (find_do_for_target project out state).1.db.deps
        ≡ row_of project out 2 (
            added project out 2
              (asked project out (possible_do_files (codes "out") (codes "/p")))
              state
              (some b'm')))
unfolding from_row dep_row delete_marked
find_do_for_target_lem_example =
    find_do_for_target_lem project out state answer 2 (some b'm') refl refl answered
