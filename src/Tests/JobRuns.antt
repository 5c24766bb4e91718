-- ===== src/Tests/JobRuns.antt =====
-- redo_core/src/jobserver.rs
use redo.Base.{
  ◌+◌, ◌≡◌, refl, ◌↔◌, true, false, List, [], ◌∷◌, arith, codes, ok, pos, pos_part, ◌≤ℤ◌,
}
use redo.Jobserver.{Server, Turn, wins, loses, exited, has_token, create_token, create_tokens}
use redo.Jobserver.Loops.{forked, no_process, settle, force_return_tokens}
use redo.Jobserver.Balance.{credit, debit}
use redo.Jobserver.Rounds.{
  Call, ensures, ensures_or_cheats, starts, releases, waits, run, Loses, lost_in, run-Loses,
}
use redo.Jobserver.Exit.{IsLean, IsCovered, wins_only, settle_iff, force_return_tokens-balance}

-- The toplevel process of `redo -j 3`.
abbrev pub server : Server
server = record {
  toplevel = 3;
  mytokens = pos 1;
  cheats = 0;
  waitfds = [];
  tokens = 2;
  cheat_tokens = 0;
  finished = [];
}

-- Job 7 ends with exit value 0.
abbrev pub turn : Turn
turn = record {
  selects = true;
  events = record { fd = 7; status = exited 0; read = loses } ∷ [];
  read = wins;
}

calls : List Call
calls =
    starts true (codes "out") (forked 7)
    ∷ ensures false (turn ∷ [])
    ∷ starts true (codes "in") no_process
    ∷ starts true (codes "in") (forked 8)
    ∷ ensures_or_cheats 3 (2 ∷ []) (turn ∷ turn ∷ [])
    ∷ releases
    ∷ waits (turn ∷ [])
    ∷ []

run-Loses_example : Loses (lost_in server calls) server (run server calls)
run-Loses_example = run-Loses server calls

server-IsLean : IsLean server
server-IsLean = record { positive = omega arith; single = omega arith; covered = omega arith }

settle_iff_example :
    let (r, t) = settle (wins_only 5) (wins_only 5) server in
    ((r ≡ ok tt) ↔ (credit server ≡ debit server + server.toplevel))
    × (r ≡ ok tt → (t.tokens ≡ server.toplevel + server.cheat_tokens) × (t.cheat_tokens ≡ 0))
settle_iff_example =
    settle_iff server 5 5 server-IsLean refl (omega arith) (omega arith) (omega arith)

-- A process that was granted a cheat and lent its token to a job.
abbrev lender : Server
lender = record server {
  toplevel = 0;
  mytokens = pos 1;
  cheats = 1;
  waitfds = record { fd = 7; name = codes "out" } ∷ [];
}

lender-IsCovered : IsCovered lender
lender-IsCovered = record { positive = omega arith; covered = omega arith }

force_return_tokens-balance_example :
    let t = force_return_tokens lender in
    (pos 0 ≤ℤ t.mytokens)
    × (t.mytokens ≤ℤ pos 1)
    × (t.cheats ≡ 0)
    × (pos_part t.mytokens + t.cheat_tokens ≡ 1 + lender.cheat_tokens)
    × (credit lender + t.cheat_tokens ≡ debit lender + t.tokens + 1)
unfolding has_token create_tokens create_token
force_return_tokens-balance_example = force_return_tokens-balance lender lender-IsCovered refl
