-- ===== src/Store/Stamps.antt =====
-- Stamps of redo_core/src/state.rs: what of a file's metadata decides that it has changed.
pub mod Laws
use redo.Base.{
  ℤ, ℕ, Bool, true, false, not, List, [], ◌∷◌, ◌++◌, Text, text_eq, split_on, join_with, to_string,
  Option, none, some, ◌==◌, ◌&&◌, if◌then◌else◌, take,
}
use redo.Paths.Components.{join}
use redo.Store.Rows.{stamp_dir, stamp_missing, is_some}

-- The metadata that a stamp prints. `mtime` is the modification time as `{:.6}` prints it,
-- `mtime_secs` its whole seconds.
pub record Metadata : Type 0 where
  pub is_dir : Bool
  pub is_symlink : Bool
  pub mtime : Text
  pub mtime_secs : ℤ
  pub size : ℕ
  pub ino : ℕ
  pub mode : ℕ
  pub uid : ℕ
  pub gid : ℕ

-- The file system during a call: `symlink_metadata` and `metadata`, where `none` is an error.
pub record FileSystem : Type 0 where
  pub lstat : Text → Option Metadata
  pub stat : Text → Option Metadata

-- `Path::exists`
unfoldable pub exists : FileSystem → Text → Bool
exists fs path = is_some (fs.stat path)

abbrev pub dash : ℕ
dash = b'-'

unfoldable pub print_stamp : Metadata → Text
unfolding join_with
print_stamp m = join_with dash (
    m.mtime
    ∷ to_string m.size
    ∷ to_string m.ino
    ∷ to_string m.mode
    ∷ to_string m.uid
    ∷ to_string m.gid
    ∷ [])

unfoldable pub stamp_of : Option Metadata → Bool × Text
unfolding print_stamp
stamp_of none = (false, stamp_missing)
stamp_of (some m) = if m.is_dir then (false, stamp_dir) else (m.is_symlink, print_stamp m)

unfoldable pub read_stamp_st : FileSystem → Text → Bool → Bool × Text
unfolding stamp_of
read_stamp_st fs path follow = stamp_of (if follow then fs.stat path else fs.lstat path)

-- `read_stamp` of the file `name`, under the directory `base`.
unfoldable pub read_stamp : FileSystem → Text → Text → Text
unfolding read_stamp_st join
read_stamp fs base name =
    let path = join base name in
    let (is_link, pre) = read_stamp_st fs path false in
    let (_, post) = read_stamp_st fs path true in if is_link then pre ++ (b'+' ∷ post) else pre

-- The first two fields of a stamp. `splitn(3, '-').take(2)` is the first two pieces of `split`.
unfoldable pub crit : Text → List Text
unfolding split_on
crit stamp = take 2 (split_on dash stamp)

unfoldable pub texts_eq : List Text → List Text → Bool
unfolding text_eq
texts_eq [] [] = true
texts_eq [] (w ∷ ws) = false
texts_eq (v ∷ vs) [] = false
texts_eq (v ∷ vs) (w ∷ ws) = text_eq v w && texts_eq vs ws

unfoldable pub detect_override : Text → Text → Bool
unfolding crit texts_eq text_eq
detect_override stamp1 stamp2 =
    if text_eq stamp1 stamp2 then false else not (texts_eq (crit stamp1) (crit stamp2))
