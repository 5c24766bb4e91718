-- ===== src/Store/Transactions.antt =====
-- The connection of redo_core/src/state.rs: writes open a transaction, which `commit` and
-- `rollback` close. `db` is what this connection reads, `committed` what other processes read.
pub mod Laws
use redo.Base.{ℕ, ◌+◌, ◌-◌, ◌^◌, Bool, true, false, not, List, ltb, ◌==◌, if◌then◌else◌}
use redo.Store.Tables.{Db}

pub record State : Type 0 where
  pub db : Db
  pub committed : Db
  pub insane : Bool
  pub in_tx : Bool
  pub wrote : ℕ
  pub locks_held : List (ℕ × Bool)

abbrev pub u64_max : ℕ
u64_max = 2 ^ 64 - 1

-- `saturating_add(1)`
unfoldable pub saturating_inc : ℕ → ℕ
saturating_inc n = if ltb n u64_max then n + 1 else u64_max

-- `BEGIN` on the first write.
unfoldable pub begin : State → State
begin s = if s.in_tx then s else record s { in_tx = true }

unfoldable pub write : (Db → Db) → State → State
unfolding begin saturating_inc
write sql s =
    if s.insane
    then s
    else let t = begin s in record t { wrote = saturating_inc t.wrote; db = sql t.db }

unfoldable pub commit : State → State
commit s =
    if s.insane
    then s
    else if s.wrote == 0
    then s
    else if s.in_tx
    then record s { committed = s.db; in_tx = false; wrote = 0 }
    else record s { wrote = 0 }

unfoldable pub rollback : State → State
rollback s =
    if s.insane
    then s
    else if s.wrote == 0
    then s
    else if s.in_tx
    then record s { db = s.committed; in_tx = false; wrote = 0 }
    else record s { wrote = 0 }

unfoldable pub is_flushed : State → Bool
is_flushed s = s.wrote == 0

-- `exists` says whether the directory `.redo` is there. The answer comes with the new state.
unfoldable pub check_sane : Bool → State → Bool × State
check_sane exists s =
    let t = if s.insane then s else record s { insane = not exists } in (not t.insane, t)
