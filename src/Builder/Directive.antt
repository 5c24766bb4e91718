-- ===== src/Builder/Directive.antt =====
-- `parse_redo_pool_directive` and `try_acquire_pool` of redo_core/src/builder.rs: the pool that a .do
-- file names at its top, and a slot of it that is free.
use redo.Base.{
  ◌&&◌, ◌^◌, ℕ, zero, suc, ◌^◌, Bool, true, false, List, [], ◌∷◌, Text, codes, Option, none, some,
  if◌then◌else◌, ltb, ◌==◌, strip_prefix, trim_start, split_whitespace, lines, take, parse_unsigned,
  Result, ok, err, Error, bad_pool, lock_exists,
}
use redo.Store.Locks
use redo.Store.Locks.{Lock, Fcntl, drop_lock, left}
use redo.Store.Transactions.{State}
use redo.Builder.Pool.{pool_lock_stride, pool_slot_fid}

pub record PoolSpec : Type 0 where
  pub name : Text
  pub depth : ℕ

-- The words rest_behind `redo-pool:`, if the line is such a directive.
abbrev pub rest_behind : Text → Option Text → Option Text
rest_behind p none = none
rest_behind p (some s) = strip_prefix p (trim_start s)

unfoldable pub directive_words : Text → Option (List Text)
unfolding strip_prefix trim_start split_whitespace
directive_words line =
    elim (rest_behind (codes "redo-pool:") (strip_prefix (codes "#") (trim_start line))) [
      | none ↦ none
      | some rest ↦ some (split_whitespace rest)
    ]

-- `parse::<usize>()` of the depth, and its bounds: as an i64 a depth from 2 ^ 63 on is negative.
unfoldable pub pool_of_depth : Text → Option ℕ → Result PoolSpec
pool_of_depth name none = err bad_pool
pool_of_depth name (some depth) =
    if depth == 0
    then err bad_pool
    else if ltb pool_lock_stride depth && ltb depth (2 ^ 63)
    then err bad_pool
    else ok (record { name = name; depth = depth })

unfoldable pub pool_of_words : List Text → Result PoolSpec
unfolding pool_of_depth parse_unsigned
pool_of_words [] = err bad_pool
pool_of_words (name ∷ []) = err bad_pool
pool_of_words (name ∷ depth_s ∷ rest) = pool_of_depth name (parse_unsigned (2 ^ 64) depth_s)

abbrev pub some_pool : Result PoolSpec → Result (Option PoolSpec)
some_pool (err e) = err e
some_pool (ok p) = ok (some p)

-- The first directive among the lines counts.
unfoldable pub pool_of_lines : List Text → Result (Option PoolSpec)
unfolding directive_words pool_of_words
pool_of_lines [] = ok none
pool_of_lines (l ∷ ls) =
    let rest = pool_of_lines ls in
    elim (directive_words l) [ none ↦ rest | some ws ↦ some_pool (pool_of_words ws) ]

-- `prefix` is the text of the first 16 KiB of the file.
unfoldable pub parse_redo_pool_directive : Result Text → Result (Option PoolSpec)
unfolding pool_of_lines lines
parse_redo_pool_directive (err e) = err e
parse_redo_pool_directive (ok prefix) = pool_of_lines (take 64 (lines prefix))

module _ (utf8 : Text → List ℕ) (var : Text) (answers : ℕ → Fcntl) where
  -- What becomes of one slot: it is taken, it is busy, or an error ends the search.
  pub data Slot : Type 0 where
    acquired : Lock → Slot
    busy : Slot
    failed : Error → Slot

  -- `trylock`, and the drop of a lock that is not got or fails.
  unfoldable pub try_slot : Lock → State → Slot × State
  unfolding Locks.trylock drop_lock
  try_slot l s =
      let (r, m, t) = Locks.trylock var (answers l.fid) l s in
      elim r [
        | err e ↦ (failed e, drop_lock (answers l.fid) m t)
        | ok true ↦ (acquired m, t)
        | ok false ↦ (busy, drop_lock (answers l.fid) m t)
      ]

  abbrev pub is_taken : Error → Bool
  is_taken lock_exists = true
  is_taken _ = false

  -- A slot whose id this process has a lock object for is passed over.
  abbrev pub new_slot : Result Lock × State → Slot × State
  new_slot (err e, t) = (if is_taken e then busy else failed e, t)
  new_slot (ok l, t) = try_slot l t

  unfoldable pub slot_at : Text → ℕ → State → Slot × State
  unfolding pool_slot_fid Locks.new try_slot
  slot_at name slot s = elim (pool_slot_fid utf8 name slot) [
    | none ↦ (failed bad_pool, s)
    | some fid ↦ new_slot (Locks.new fid s)
  ]

  abbrev pub next_slot :
      (State → Result (Option Lock) × State) → Slot × State → Result (Option Lock) × State
  next_slot more (acquired l, t) = (ok (some l), t)
  next_slot more (busy, t) = more t
  next_slot more (failed e, t) = (err e, t)

  -- The loop from a slot on, on the number of slots that are left.
  unfoldable pub try_slots : Text → ℕ → ℕ → State → Result (Option Lock) × State
  unfolding slot_at
  try_slots name slot zero s = (ok none, s)
  try_slots name slot (suc n) s = next_slot (try_slots name (suc slot) n) (slot_at name slot s)

  unfoldable pub try_acquire_pool : PoolSpec → State → Result (Option Lock) × State
  unfolding try_slots
  try_acquire_pool spec s = try_slots spec.name 0 spec.depth s
