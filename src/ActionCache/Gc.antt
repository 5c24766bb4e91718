-- ===== src/ActionCache/Gc.antt =====
-- The collection of old objects. What is in the directory of objects is an argument, in the order in
-- which it is listed; a removal is assumed to succeed.
pub mod Laws
use redo.Base.{
  ℕ, ◌+◌, ◌-◌, ◌%◌, ◌^◌, ◌*◌, Bool, true, false, ◌&&◌, ◌||◌, List, [], ◌∷◌, ◌++◌, Text, codes,
  text_eq, is_empty, trim, parse_unsigned, Option, none, some, if◌then◌else◌, ◌==◌, ltb, leb,
}
use redo.Remote.Url.{number_or}

abbrev pub default_max_bytes : ℕ
default_max_bytes = 1024 * 1024 * 1024

-- The variable REDO_ACTION_CACHE_MAX_BYTES.
unfoldable pub max_bytes : Option Text → ℕ
max_bytes none = default_max_bytes
max_bytes (some v) =
    if is_empty (trim v)
    then default_max_bytes
    else number_or default_max_bytes (parse_unsigned (2 ^ 64) (trim v))

-- The variable REDO_NO_ACTION_CACHE.
unfoldable pub enabled_default_on : Option Text → Bool
enabled_default_on none = true
enabled_default_on (some v) = is_empty v || text_eq v (codes "0")

pub record ObjEntry : Type 0 where
  pub blob : Text
  pub meta : Text
  pub size : ℕ
  pub mtime_secs : ℕ

-- The order of `(o.mtime_secs, Reverse(o.size))`.
unfoldable pub obj_leb : ObjEntry → ObjEntry → Bool
obj_leb a b = ltb a.mtime_secs b.mtime_secs || a.mtime_secs == b.mtime_secs && leb b.size a.size

unfoldable pub insert_obj : ObjEntry → List ObjEntry → List ObjEntry
insert_obj o [] = o ∷ []
insert_obj o (p ∷ ps) = let rest = insert_obj o ps in if obj_leb o p then o ∷ p ∷ ps else p ∷ rest

unfoldable pub sort_objs : List ObjEntry → List ObjEntry
sort_objs [] = []
sort_objs (o ∷ os) = insert_obj o (sort_objs os)

-- A sum of u64.
unfoldable pub total_size : List ObjEntry → ℕ
total_size [] = 0
total_size (o ∷ os) = (o.size + total_size os) % 2 ^ 64

-- What is kept and what is removed.
abbrev pub Swept : Type 0
Swept = List ObjEntry × List ObjEntry

abbrev pub removing : ObjEntry → Swept → Swept
removing o (kept, gone) = (kept, o ∷ gone)

unfoldable pub delete_oldest : ℕ → ℕ → List ObjEntry → Swept
delete_oldest maxb total [] = ([], [])
delete_oldest maxb total (o ∷ os) =
    let rest = delete_oldest maxb (total - o.size) os in
    if leb total maxb then (o ∷ os, []) else removing o rest

unfoldable pub maybe_gc : ℕ → List ObjEntry → Swept
maybe_gc maxb objs =
    if maxb == 0
    then (objs, [])
    else if leb (total_size objs) maxb
    then (objs, [])
    else delete_oldest maxb (total_size objs) (sort_objs objs)
