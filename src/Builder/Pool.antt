-- ===== src/Builder/Pool.antt =====
-- The lock ids of job pools, in redo_core/src/builder.rs. `utf8` gives the bytes of a name.
use Prim.Native.Nat.{bit_xor}
use mathlib.Core.List.{foldl}
use redo.Base.{
  ℕ, ◌+◌, ◌*◌, ◌%◌, ◌^◌, ◌<◌, ◌≡◌, ◌≢◌, ◌↔◌, List, Text, Option, none, some, ltb, ◌&&◌, leb,
  if◌then◌else◌, arith, inl, inr, Bool-cases,
}

abbrev pub pool_lock_magic : ℕ
pool_lock_magic = 536870912

abbrev pub pool_lock_stride : ℕ
pool_lock_stride = 65536

-- `LOG_LOCK_MAGIC` of redo_core/src/state.rs.
abbrev pub log_lock_magic : ℕ
log_lock_magic = 268435456

-- One byte of the hash; `wrapping_mul` is the product modulo 2 ^ 64.
unfoldable pub fnv_step : ℕ → ℕ → ℕ
fnv_step h b = bit_xor h b * 1099511628211 % 2 ^ 64

module _ (utf8 : Text → List ℕ) where
  unfoldable pub fnv1a64 : Text → ℕ
  unfolding fnv_step
  fnv1a64 s = foldl fnv_step 14695981039346656037 (utf8 s)

  -- `fnv1a64(name) & 0xffff_ffff`
  unfoldable pub bucket : Text → ℕ
  bucket name = fnv1a64 name % 4294967296

  -- The id of a slot, or none for a slot that is too large. A slot is a usize and the id an i64, which
  -- is written as its residue modulo 2 ^ 64: a slot from 2 ^ 63 on is negative there, and passes. The
  -- product does not saturate.
  unfoldable pub pool_slot_fid : Text → ℕ → Option ℕ
  pool_slot_fid name slot =
      if leb pool_lock_stride slot && ltb slot (2 ^ 63)
      then none
      else some ((pool_lock_magic + bucket name * pool_lock_stride + slot) % 2 ^ 64)

  bucket_lt : (name : Text) → bucket name < 4294967296
  unfolding bucket
  bucket_lt name = omega arith

  pool_slot_fid-some :
      (name : Text) (slot fid : ℕ)
      → slot < 2 ^ 63
      → pool_slot_fid name slot ≡ some fid
      → (fid ≡ 536870912 + bucket name * 65536 + slot) × (slot < 65536) × (bucket name < 4294967296)
  unfolding pool_slot_fid
  pool_slot_fid-some name slot fid small h =
      elim (Bool-cases (leb 65536 slot && ltb slot (2 ^ 63))) [
        | inl large ↦ cc (rw (large, pool_slot_fid) at h)
        | inr fits ↦
            let some_fid = rw (fits, pool_slot_fid) at h in
            let less : slot < 65536 = ground (arith, fits, small) in
            let is : (536870912 + bucket name * 65536 + slot) % 2 ^ 64 ≡ fid = cc some_fid in
            (omega (arith, is, less, bucket_lt name), less, bucket_lt name)
      ]

  -- For slots below 2 ^ 63, the ids of two slots are the same only for the same slot of pools
  -- in the same bucket, fit into 63 bits, and differ from the ids of files and of their logs,
  -- as long as file ids stay below the ids of logs.
  pub pool_slot_fid_lem :
      (name other : Text) (slot slot' a b file : ℕ)
      → slot < 2 ^ 63
      → slot' < 2 ^ 63
      → pool_slot_fid name slot ≡ some a
      → pool_slot_fid other slot' ≡ some b
      → file < log_lock_magic
      → ((a ≡ b) ↔ ((bucket name ≡ bucket other) × (slot ≡ slot')))
        × (a < 2 ^ 63)
        × (a ≢ file)
        × (a ≢ log_lock_magic + file)
  pool_slot_fid_lem name other slot slot' a b file sa sb ha hb small =
      let x = pool_slot_fid-some name slot a sa ha in
      let y = pool_slot_fid-some other slot' b sb hb in
      (
        ((λ e. (omega (arith, x, y, e), omega (arith, x, y, e))), (λ e. omega (arith, x, y, e))),
        omega (arith, x),
        (λ e. omega (arith, x, small, e)),
        (λ e. omega (arith, x, small, e)),
      )
