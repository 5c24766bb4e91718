-- ===== src/Paths/DoFiles.antt =====
-- The .do files that may build a target: redo_core/src/paths.rs.
pub mod Defaults
pub mod Laws
use mathlib.Core.List.{flat_map, reverse}
use redo.Base.{
  ℕ, zero, suc, ◌+◌, List, [], ◌∷◌, ◌++◌, map, Text, codes, is_empty, split_on, join_with, Option,
  none, some, ◌==◌, if◌then◌else◌, ltb, length, take, drop, text_or,
}
use redo.Paths.Components.{slash, join, parent, file_name}
use redo.Paths.Normalize.{normalize_join}
use redo.Store.Stamps.{FileSystem, exists}

pub record DoFile : Type 0 where
  pub dodir : Text
  pub dofile : Text
  pub basedir : Text
  pub basename : Text
  pub ext : Text

abbrev pub full_stop : ℕ
full_stop = b'.'

-- The numbers from `a` on, `n` of them.
abbrev pub range : ℕ → ℕ → List ℕ
range a zero = []
range a (suc n) = a ∷ range (suc a) n

-- The part of the loop of `default_do_files` for the index `i`: the .do file, what `$2` is, and
-- the extension.
unfoldable pub default_at : List Text → ℕ → Text × Text × Text
unfolding join_with
default_at parts i =
    let ext = if ltb i (length parts) then full_stop ∷ join_with full_stop (drop i parts) else [] in
    (codes "default" ++ ext ++ codes ".do", join_with full_stop (take i parts), ext)

unfoldable pub default_do_files : Text → List (Text × Text × Text)
unfolding default_at split_on
default_do_files filename =
    let parts = split_on full_stop filename in map (default_at parts) (range 1 (length parts))

-- `rsplit_once`: the texts before and behind the last separator.
unfoldable pub rsplit_once : ℕ → Text → Option (Text × Text)
rsplit_once sep [] = none
rsplit_once sep (c ∷ s) =
    let rest = rsplit_once sep s in
    elim rest [ some (a, b) ↦ some (c ∷ a, b) | none ↦ if c == sep then some ([], s) else none ]

-- The directory and the file name of a target, as far as its text goes.
abbrev pub dir_and_name : Text → Option (Text × Text) → Text × Text
dir_and_name target none = ([], target)
dir_and_name target (some pair) = pair

unfoldable pub own_do_file : Text → Text → DoFile
unfolding rsplit_once join
own_do_file target_rel base =
    let (dir, filename) = dir_and_name target_rel (rsplit_once slash target_rel) in
    record {
      dodir = join base dir;
      dofile = filename ++ codes ".do";
      basedir = [];
      basename = filename;
      ext = [];
    }

-- One candidate in the directory of the first `i` pieces.
unfoldable pub candidate : List Text → ℕ → Text × Text × Text → DoFile
unfolding join_with is_empty
candidate dirbits i (dofile, basename, ext) =
    let above = join_with slash (take i dirbits) in
    let subdir = join_with slash (drop i dirbits) in
    record {
      dodir = if is_empty above then slash ∷ [] else above;
      dofile = dofile;
      basedir = subdir;
      basename = if is_empty subdir then basename else subdir ++ (slash ∷ basename);
      ext = ext;
    }

unfoldable pub walk_up : Text → Text → List DoFile
unfolding default_do_files candidate split_on
walk_up dirname filename =
    let dirbits = split_on slash dirname in
    flat_map (λ (i : ℕ). map (candidate dirbits i) (default_do_files filename))
      (reverse (range 1 (length dirbits)))

unfoldable pub possible_do_files : Text → Text → List DoFile
unfolding own_do_file walk_up normalize_join parent file_name
possible_do_files target_rel base =
    let t = normalize_join base target_rel in
    own_do_file target_rel base
    ∷ walk_up (text_or base (parent t)) (text_or target_rel (file_name t))

module _ (fs : FileSystem) where
  -- The loop of `find_do_file`.
  unfoldable pub first_existing : List DoFile → Option DoFile
  unfolding exists join
  first_existing [] = none
  first_existing (c ∷ cs) =
      let rest = first_existing cs in if exists fs (join c.dodir c.dofile) then some c else rest

  unfoldable pub find_do_file : Text → Text → Option DoFile
  unfolding first_existing possible_do_files
  find_do_file target_rel base = first_existing (possible_do_files target_rel base)
