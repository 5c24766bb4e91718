-- ===== src/Store/Transactions/Laws.antt =====
-- What a transaction promises: all or nothing, for any sequence of writes.
use redo.Base.{◌≡◌, refl, ◌∙◌, Bool, true, false, List, [], ◌∷◌, arith, ltb}
use redo.Store.Tables.{Db}
use redo.Store.Transactions.{State, write, commit, rollback, is_flushed, check_sane}

-- Between calls a transaction is open exactly while there are writes to commit, and with none open
-- the connection reads what was committed.
pub record IsConsistent (s : State) : Type 0 where
  pub opened : s.in_tx ≡ ltb 0 s.wrote
  pub settled : s.in_tx ≡ false → s.db ≡ s.committed

pub data Call : Type 0 where
  writes : (Db → Db) → Call
  commits rollbacks : Call
  checks : Bool → Call

pub step : State → Call → State
step s (writes sql) = write sql s
step s commits = commit s
step s rollbacks = rollback s
step s (checks exists) = (check_sane exists s).1

pub run : State → List Call → State
unfolding step
run s [] = s
run s (c ∷ cs) = run (step s c) cs

-- The writes of a list, in order.
pub write_all : List (Db → Db) → State → State
write_all [] s = s
write_all (sql ∷ sqls) s = write_all sqls (write sql s)

pub apply_all : List (Db → Db) → Db → Db
apply_all [] db = db
apply_all (sql ∷ sqls) db = apply_all sqls (sql db)

write-IsConsistent : (sql : Db → Db) (s : State) → IsConsistent s → IsConsistent (write sql s)
unfolding write
write-IsConsistent sql s v = ground arith

step-IsConsistent : (s : State) (c : Call) → IsConsistent s → IsConsistent (step s c)
unfolding step commit rollback check_sane
step-IsConsistent s (writes sql) v = write-IsConsistent sql s v
step-IsConsistent s commits v = ground arith
step-IsConsistent s rollbacks v = ground arith
step-IsConsistent s (checks exists) v = ground arith

-- Every sequence of writes, commits, rollbacks and sanity checks keeps a consistent state
-- consistent.
pub run-IsConsistent : (s : State) (cs : List Call) → IsConsistent s → IsConsistent (run s cs)
unfolding run
run-IsConsistent s [] v = v
run-IsConsistent s (c ∷ cs) v = run-IsConsistent (step s c) cs (step-IsConsistent s c v)

write_all-IsConsistent :
    (sqls : List (Db → Db)) (s : State) → IsConsistent s → IsConsistent (write_all sqls s)
unfolding write_all
write_all-IsConsistent [] s v = v
write_all-IsConsistent (sql ∷ sqls) s v =
    write_all-IsConsistent sqls (write sql s) (write-IsConsistent sql s v)

db-write_all :
    (sqls : List (Db → Db)) (s : State)
    → s.insane ≡ false
    → ((write_all sqls s).db ≡ apply_all sqls s.db)
      × ((write_all sqls s).committed ≡ s.committed)
      × ((write_all sqls s).insane ≡ false)
unfolding write_all apply_all write
db-write_all [] s h = (refl, refl, h)
db-write_all (sql ∷ sqls) s h = ground (arith, db-write_all sqls (write sql s))

-- In a consistent and sane state outside of a transaction, a rollback undoes all writes that
-- follow, a commit publishes all of them, and either leaves the state flushed.
pub rollback-commit-write_all :
    (sqls : List (Db → Db)) (s : State)
    → IsConsistent s
    → s.insane ≡ false
    → s.in_tx ≡ false
    → ((rollback (write_all sqls s)).db ≡ s.db)
      × ((commit (write_all sqls s)).committed ≡ apply_all sqls s.db)
      × ((commit (write_all sqls s)).db ≡ apply_all sqls s.db)
      × (is_flushed (rollback (write_all sqls s)) ≡ true)
      × (is_flushed (commit (write_all sqls s)) ≡ true)
unfolding rollback commit is_flushed
rollback-commit-write_all sqls s v sane idle =
    ground (arith, db-write_all sqls s, write_all-IsConsistent sqls s v)

-- A flushed state reads what every other process reads.
pub db_of_is_flushed : (s : State) → IsConsistent s → is_flushed s ≡ true → s.db ≡ s.committed
unfolding is_flushed
db_of_is_flushed s v h = ground arith

step_insane :
    (s : State) (c : Call)
    → s.insane ≡ true
    → ((step s c).db ≡ s.db) × ((step s c).committed ≡ s.committed) × ((step s c).insane ≡ true)
unfolding step write commit rollback check_sane
step_insane s (writes sql) h = ground arith
step_insane s commits h = ground arith
step_insane s rollbacks h = ground arith
step_insane s (checks exists) h = ground arith

-- Once the state directory was found missing no call changes the tables, and no later check
-- makes the state sane again.
pub run_insane :
    (s : State) (cs : List Call)
    → s.insane ≡ true
    → ((run s cs).db ≡ s.db) × ((run s cs).committed ≡ s.committed) × ((run s cs).insane ≡ true)
unfolding run
run_insane s [] h = (refl, refl, h)
run_insane s (c ∷ cs) h =
    let first = step_insane s c h in
    let later = run_insane (step s c) cs first.2 in (later.0 ∙ first.0, later.1 ∙ first.1, later.2)
