-- ===== src/Store/Locks.antt =====
-- `Lock` of redo_core/src/state.rs: byte-range locks on the lock file, and the map of the ids that
-- this process has a lock object for. What fcntl answers is an argument; the variable REDO_CYCLES
-- is a text. A method gives the lock as it leaves it.
pub mod Laws
use redo.Base.{
  ℕ, Bool, true, false, not, List, [], ◌∷◌, Text, Option, none, some, ◌==◌, if◌then◌else◌, Result,
  ok, err, lock_exists, lock_not_owned, io,
}
use redo.Cycles
use redo.Store.Transactions.{State}

pub record Lock : Type 0 where
  pub fid : ℕ
  pub owned : Bool

-- `get`, `remove` and `insert` of the map.
unfoldable pub held : ℕ → List (ℕ × Bool) → Option Bool
held fid [] = none
held fid ((i, b) ∷ m) = if i == fid then some b else held fid m

unfoldable pub forget : ℕ → List (ℕ × Bool) → List (ℕ × Bool)
forget fid [] = []
forget fid ((i, b) ∷ m) = let rest = forget fid m in if i == fid then rest else (i, b) ∷ rest

unfoldable pub remember : ℕ → Bool → List (ℕ × Bool) → List (ℕ × Bool)
unfolding forget
remember fid b m = (fid, b) ∷ forget fid m

-- What fcntl answers: success, a lock of another process (EACCES, EAGAIN), or another error.
pub data Fcntl : Type 0 where
  granted taken broken : Fcntl

unfoldable pub lock_region : Bool → Fcntl → Result Bool
lock_region nonblock granted = ok true
lock_region nonblock taken = if nonblock then ok false else err io
lock_region nonblock broken = err io

unfoldable pub unlock_region : Fcntl → Result (Unit {0})
unlock_region granted = ok tt
unlock_region taken = err io
unlock_region broken = err io

abbrev pub is_held : Option Bool → Bool
is_held none = false
is_held (some b) = b

unfoldable pub new : ℕ → State → Result Lock × State
unfolding held remember
new fid s = if is_held (held fid s.locks_held) then (err lock_exists, s) else (
  ok (record { fid = fid; owned = false }),
  record s { locks_held = remember fid false s.locks_held },
)

unfoldable pub check : Text → Lock → Result (Unit {0})
check var l = if l.owned then ok tt else Cycles.check var l.fid

-- A lock with what it and the state become.
abbrev pub Held : Type 0 → Type 0
Held A = Result A × Lock × State

abbrev pub left {ℓ} : {A : Type ℓ} → Result A × Lock × State → Lock × State
left (r, l, s) = (l, s)

unfoldable pub own : Lock → State → Lock × State
unfolding remember
own l s = (record l { owned = true }, record s { locks_held = remember l.fid true s.locks_held })

-- What `trylock` does with the answer of `lock_region`.
unfoldable pub taken_or_not : Result Bool → Lock → State → Held Bool
unfolding own
taken_or_not (err e) l s = (err e, l, s)
taken_or_not (ok true) l s = let (m, t) = own l s in (ok true, m, t)
taken_or_not (ok false) l s = (ok false, record l { owned = false }, s)

unfoldable pub trylock : Text → Fcntl → Lock → State → Held Bool
unfolding check taken_or_not lock_region
trylock var a l s = elim (check var l) [
  | err e ↦ (err e, l, s)
  | ok u ↦ taken_or_not (lock_region true a) l s
]

unfoldable pub waited : Result Bool → Lock → State → Held (Unit {0})
unfolding own
waited (err e) l s = (err e, l, s)
waited (ok b) l s = let (m, t) = own l s in (ok tt, m, t)

unfoldable pub waitlock : Text → Fcntl → Lock → State → Held (Unit {0})
unfolding check waited lock_region
waitlock var a l s = elim (check var l) [
  | err e ↦ (err e, l, s)
  | ok u ↦ waited (lock_region false a) l s
]

unfoldable pub let_go : Result (Unit {0}) → Lock → State → Held (Unit {0})
unfolding remember
let_go (err e) l s = (err e, l, s)
let_go (ok u) l s =
    (ok tt, record l { owned = false }, record s { locks_held = remember l.fid false s.locks_held })

unfoldable pub unlock : Fcntl → Lock → State → Held (Unit {0})
unfolding let_go unlock_region
unlock a l s = if not l.owned then (err lock_not_owned, l, s) else let_go (unlock_region a) l s

-- `Drop`: an owned lock is unlocked, whether that works or not, and the id forgotten.
unfoldable pub drop_lock : Fcntl → Lock → State → State
unfolding unlock forget
drop_lock a l s =
    let t = if l.owned then (unlock a l s).2 else s in
    record t { locks_held = forget l.fid t.locks_held }
