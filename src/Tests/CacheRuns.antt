-- ===== src/Tests/CacheRuns.antt =====
-- redo_core/src/action_cache.rs
use redo.Base.{
  ℕ, ◌^◌, ◌<◌, ◌≡◌, ◌⊎◌, refl, true, false, List, [], ◌∷◌, codes, text_eq, is_empty, none, some,
  arith, ok, length,
}
use redo.Remote.{Bytes, Utf8}
use redo.Remote.Server.{read_file, file_exists}
use redo.Store.Rows.{File, from_row}
use redo.Store.Stamps.{read_stamp, read_stamp_st, stamp_of}
use redo.Store.Files.{World, stamp_now}
use redo.ActionCache.Keys.{
  feed, insert_dep, KeyDeps, eligible, key_stream, sort_deps, describe_v0, compute_action_key_v0,
}
use redo.ActionCache.Injective.{Agree, heads_v0, key_stream_v0_injective, has_always}
use redo.ActionCache.Always.{no_key, compute_action_key_v0_always}
use redo.ActionCache.Gc.{ObjEntry, maybe_gc}
use redo.ActionCache.Gc.Laws.{IsSweep, maybe_gc-IsSweep}
use redo.ActionCache.Meta.{CachedMeta, blob_path, lookup, store}
use redo.ActionCache.Meta.Laws.{lookup-store}
use redo.Tests.Sample.{world, out}

abbrev bytes : Utf8
bytes = record { encode = λ s. s; decode = λ b. some b; lossy = λ b. b }

-- Nothing is on the disk.
abbrev bare : World
bare = record world { fs = record { lstat = λ p. none; stat = λ p. none } }

abbrev on_out : KeyDeps
on_out = (b'm', out) ∷ []

short_stamps : (f : File) → length (stamp_now bare f) < 2 ^ 64
unfolding stamp_now read_stamp read_stamp_st stamp_of
short_stamps f = omega arith

key_stream_v0_injective_example :
    (codes "t" ≡ codes "t")
    × Agree bytes
        (describe_v0 bytes bare)
        (describe_v0 bytes bare)
        (sort_deps on_out)
        (sort_deps on_out)
unfolding key_stream feed sort_deps insert_dep text_eq from_row describe_v0
key_stream_v0_injective_example =
    key_stream_v0_injective bytes bare bare (codes "0.42d") (codes "t") (codes "t") on_out on_out _
      (λ s. refl) (omega arith, (omega arith, (omega arith, tt)))
      (omega arith, (omega arith, (omega arith, tt))) short_stamps short_stamps (omega arith, tt)
      (omega arith, tt) (omega arith) (omega arith) refl refl

compute_action_key_v0_always_example :
    ((has_always on_out ≡ true)
      × (compute_action_key_v0 bytes (λ b. b) (codes "0.42d") bare (codes "t") on_out ≡ ok no_key))
    ⊎ ((has_always on_out ≡ false)
        × ((bs : Bytes) × (key_stream bytes
                (describe_v0 bytes bare)
                (heads_v0 (codes "0.42d") (codes "t"))
                on_out
              ≡ ok (some bs))
            × (compute_action_key_v0 bytes (λ b. b) (codes "0.42d") bare (codes "t") on_out
                ≡ ok (eligible, record { hex = bs }))))
compute_action_key_v0_always_example =
    compute_action_key_v0_always bytes (λ b. b) (codes "0.42d") bare (codes "t") on_out

abbrev object : ℕ → ℕ → ObjEntry
object size time = record {
  blob = codes "a.blob";
  meta = codes "a.meta";
  size = size;
  mtime_secs = time;
}

abbrev objects : List ObjEntry
objects = object 5 9 ∷ object 4 3 ∷ object 6 3 ∷ []

maybe_gc-IsSweep_example : IsSweep 9 objects (maybe_gc 9 objects)
maybe_gc-IsSweep_example = maybe_gc-IsSweep 9 objects refl (omega arith)

abbrev entry_meta : CachedMeta
entry_meta = record { mode = 493; size = 3; sha256 = codes "ab12" }

lookup-store_example :
    let (stored, gs) =
      store bytes
        (codes "/p")
        (λ b. codes "ab12")
        (λ fs. objects)
        0
        (record { hex = codes "c0ffee" })
        (some (codes "abc"))
        493
        [] in
    (stored ≡ ok 3)
    × (lookup bytes (codes "/p") (record { hex = codes "c0ffee" }) gs
        ≡ some (blob_path (codes "/p") (codes "c0ffee"), entry_meta))
    × (read_file (blob_path (codes "/p") (codes "c0ffee")) gs ≡ some (codes "abc"))
unfolding is_empty file_exists read_file maybe_gc
lookup-store_example =
    lookup-store bytes (codes "/p") (λ b. codes "ab12") (λ fs. objects) 0 (codes "c0ffee")
      (codes "abc") 493 [] (λ s. refl) refl refl (omega arith) (omega arith) (λ e. cc) refl refl
