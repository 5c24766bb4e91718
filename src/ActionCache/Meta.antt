-- ===== src/ActionCache/Meta.antt =====
-- Entries of the local action cache: their metadata, the lookup, and how they are stored.
pub mod Laws
use mathlib.Core.List.{foldl}
use redo.Base.{
  ℕ, ◌+◌, ◌^◌, Bool, true, false, not, ◌&&◌, ◌||◌, List, [], ◌∷◌, ◌++◌, Text, codes, text_eq,
  is_empty, ltb, length, take, to_string, lines, trim, strip_prefix, parse_unsigned, Option, none,
  some, if◌then◌else◌, Result, ok, err, io, empty_key, text_or,
}
use redo.Remote.{Bytes, Utf8}
use redo.Remote.Url.{number_or}
use redo.Remote.Server.{Files, read_file, file_exists}
use redo.Paths.Components.{join}
use redo.ActionCache.Keys.{ActionKey}
use redo.ActionCache.Gc.{ObjEntry, maybe_gc}

unfoldable pub root_dir : Text → Text
root_dir base = join (join base (codes ".redo")) (codes "action_cache")

unfoldable pub objects_dir : Text → Text
objects_dir base = join (root_dir base) (codes "objects")

unfoldable pub bucket_dir : Text → Text → Text
bucket_dir base hex =
    join (objects_dir base) (if ltb (length hex) 2 then codes "00" else take 2 hex)

unfoldable pub blob_path : Text → Text → Text
blob_path base hex = join (bucket_dir base hex) (hex ++ codes ".blob")

unfoldable pub meta_path : Text → Text → Text
meta_path base hex = join (bucket_dir base hex) (hex ++ codes ".meta")

pub record CachedMeta : Type 0 where
  pub mode : ℕ
  pub size : ℕ
  pub sha256 : Text

-- The three lines of `write_meta_atomically`.
unfoldable pub print_meta : CachedMeta → Text
print_meta m =
    codes "mode="
    ++ (to_string m.mode
        ++ (10
            ∷ (codes "size="
                ++ (to_string m.size ++ (10 ∷ (codes "sha256=" ++ (m.sha256 ++ (10 ∷ []))))))))

-- What the lines so far have set.
pub record MetaFound : Type 0 where
  pub found_mode : Option ℕ
  pub found_size : Option ℕ
  pub found_sha256 : Option Text

abbrev pub set_sha256 : MetaFound → Text → MetaFound
set_sha256 f v = if is_empty v then f else record f { found_sha256 = some v }

abbrev pub set_size : MetaFound → Option Text → Option Text → MetaFound
set_size f (some v) other = record f { found_size = parse_unsigned (2 ^ 64) (trim v) }
set_size f none (some v) = set_sha256 f (trim v)
set_size f none none = f

abbrev pub set_mode : MetaFound → Option Text → Option Text → Option Text → MetaFound
set_mode f (some v) s h = record f { found_mode = parse_unsigned (2 ^ 32) (trim v) }
set_mode f none s h = set_size f s h

unfoldable pub note_line : MetaFound → Text → MetaFound
note_line f line =
    set_mode f (strip_prefix (codes "mode=") line) (strip_prefix (codes "size=") line)
      (strip_prefix (codes "sha256=") line)

abbrev pub nothing_found : MetaFound
nothing_found = record { found_mode = none; found_size = none; found_sha256 = none }

-- Octal 644 is 420.
abbrev pub meta_of : MetaFound → CachedMeta
meta_of f = record {
  mode = number_or 420 f.found_mode;
  size = number_or 0 f.found_size;
  sha256 = text_or [] f.found_sha256;
}

unfoldable pub read_meta : Text → CachedMeta
read_meta s = meta_of (foldl note_line nothing_found (lines s))

module _ (u : Utf8) (base : Text) where
  abbrev pub with_meta : Text → Option Text → Option (Text × CachedMeta)
  with_meta bp none = none
  with_meta bp (some s) = some (bp, read_meta s)

  abbrev pub decoded : Option Bytes → Option Text
  decoded none = none
  decoded (some b) = u.decode b

  unfoldable pub lookup : ActionKey → Files → Option (Text × CachedMeta)
  lookup key fs =
      if is_empty key.hex
      then none
      else if not (file_exists (blob_path base key.hex) fs)
          || not (file_exists (meta_path base key.hex) fs)
      then none
      else with_meta (blob_path base key.hex) (decoded (read_file (meta_path base key.hex) fs))

  -- `fs::remove_file`
  unfoldable pub remove_file : Text → Files → Files
  remove_file p [] = []
  remove_file p ((q, b) ∷ fs) =
      let rest = remove_file p fs in if text_eq p q then rest else (q, b) ∷ rest

  unfoldable pub remove_objects : List ObjEntry → Files → Files
  remove_objects [] fs = fs
  remove_objects (o ∷ os) fs = remove_objects os (remove_file o.meta (remove_file o.blob fs))

  -- `maybe_gc`, over the objects that are listed.
  unfoldable pub run_gc : (Files → List ObjEntry) → ℕ → Files → Files
  run_gc listed maxb fs = remove_objects (maybe_gc maxb (listed fs)).1 fs

  -- The length of the file, which is there.
  abbrev pub length_of : Option Bytes → ℕ
  length_of none = 0
  length_of (some b) = length b

  -- The file `src` has been read; the two new files are made.
  unfoldable pub written : (Bytes → Text) → Text → Bytes → ℕ → Files → Files
  written sha256 hex content mode fs =
      (
        meta_path base hex,
        u.encode
            (print_meta (record { mode = mode; size = length content; sha256 = sha256 content })),
      )
      ∷ (blob_path base hex, content)
      ∷ fs

  abbrev pub store_content :
      (Bytes → Text)
      → (Files → List ObjEntry)
      → ℕ
      → Text
      → Option Bytes
      → ℕ
      → Files
      → Result ℕ × Files
  store_content sha256 listed maxb hex none mode fs = (err io, fs)
  store_content sha256 listed maxb hex (some content) mode fs =
      (ok (length content), run_gc listed maxb (written sha256 hex content mode fs))

  unfoldable pub store :
      (Bytes → Text)
      → (Files → List ObjEntry)
      → ℕ
      → ActionKey
      → Option Bytes
      → ℕ
      → Files
      → Result ℕ × Files
  store sha256 listed maxb key src mode fs =
      if is_empty key.hex
      then (err empty_key, fs)
      else if file_exists (blob_path base key.hex) fs && file_exists (meta_path base key.hex) fs
      then (ok (length_of (read_file (blob_path base key.hex) fs)), fs)
      else store_content sha256 listed maxb key.hex src mode fs
