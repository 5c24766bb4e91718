-- ===== src/Jobserver/Accounts.antt =====
-- The token accounts of a toplevel process from its setup to its end.
use redo.Base.{ℕ, ◌+◌, ◌≤◌, ◌<◌, ◌≡◌, List, [], arith, ok}
use redo.Jobserver.{Server}
use redo.Jobserver.Loops.{settle}
use redo.Jobserver.Balance.{credit, debit}
use redo.Jobserver.Rounds.{Call, run, lost_in, run-Loses}
use redo.Jobserver.Exit.{IsLean, wins_only, settle_iff}

-- A toplevel process that begins with right accounts, makes any calls in which no start fails
-- at its pipe or fork, and ends alone, without jobs, with at most one token and no cheat
-- beyond it, and then reads both pipes until they are empty, finds its accounts right. The
-- tokens that it began with are back in the pipe, with one more for each byte that was in the
-- cheat pipe. Writes to the pipes succeed.
pub settle-run :
    (s : Server) (cs : List Call) (m n : ℕ)
    → credit s ≡ debit s + s.toplevel
    → 0 < s.toplevel
    → lost_in s cs ≡ 0
    → let u = run s cs in
      IsLean u
      → u.waitfds ≡ []
      → u.tokens + 1 ≤ m
      → u.cheat_tokens ≤ n
      → let (r, t) = settle (wins_only m) (wins_only n) u in
        (r ≡ ok tt) × (t.tokens ≡ s.toplevel + u.cheat_tokens) × (t.cheat_tokens ≡ 0)
settle-run s cs m n right top none_lost lean idle hm hn =
    let same = run-Loses s cs in
    let ends = settle_iff (run s cs) m n lean idle (omega (arith, same.top)) hm hn in
    let good = ends.0.1 (omega (arith, same.balance, same.top, none_lost)) in
    let back = ends.1 good in (good, omega (arith, back.0, same.top), back.1)
