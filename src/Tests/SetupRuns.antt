-- ===== src/Tests/SetupRuns.antt =====
-- `setup` of redo_core/src/jobserver.rs, and a whole life of a process.
use redo.Base.{
  ℕ, ◌+◌, ◌≡◌, refl, Bool, true, List, [], ◌∷◌, arith, codes, Option, none, some, ok, pos, ◌+ℤ◌,
  ◌-ℤ◌,
}
use redo.Jobserver.{
  Server, has_token, create_token, create_tokens, destroy_tokens, release, release_mine,
  release_loop, release_round, release_except_mine, try_read_token, find_job, remove_job, regain,
  reap, reap_all, wait, running, exit_value,
}
use redo.Jobserver.Loops.{forked, job_started, start, release_down, let_go, wait_jobs, settle}
use redo.Jobserver.Balance.{credit, debit}
use redo.Jobserver.Rounds.{Call, starts, waits, run, step}
use redo.Jobserver.Exit.{IsLean, wins_only}
use redo.Jobserver.Accounts.{settle-run}
use redo.Jobserver.Setup.{Process, parse_makeflags, print_makeflags, print_pair, setup}
use redo.Jobserver.Setup.Makeflags.{parse_makeflags-print_makeflags}
use redo.Jobserver.Setup.Inherit.{IsTop, setup-IsTop}
use redo.Tests.JobRuns.{server, turn}

parse_makeflags-print_makeflags_example :
    parse_makeflags (print_makeflags (100, 101)) ≡ some (100, 101)
parse_makeflags-print_makeflags_example =
    parse_makeflags-print_makeflags 100 101 (omega arith, omega arith) (omega arith, omega arith)

abbrev all_exist : ℕ → Bool
all_exist fd = true

abbrev new_pipe : ℕ → Option (ℕ × ℕ)
new_pipe n = some (n, n + 1)

abbrev process : Process
process = record {
  server = record server { toplevel = 0; tokens = 0 };
  token_fds = none;
  cheat_fds = none;
  makeflags = [];
  cheat_var = [];
}

process-IsTop : IsTop process
unfolding parse_makeflags
process-IsTop = record {
  unset = refl;
  orphan = refl;
  one = refl;
  no_cheats = refl;
  idle = refl;
  empty = refl;
  no_cheat_tokens = refl;
}

setup-IsTop_example :
    let (r, q) = setup all_exist new_pipe (pos 3) process in
    (r ≡ ok tt)
    × (credit q.server ≡ debit q.server + q.server.toplevel)
    × (q.server.toplevel ≡ 3)
    × (q.server.tokens ≡ 2)
    × (parse_makeflags q.makeflags ≡ some (100, 101))
setup-IsTop_example =
    setup-IsTop all_exist new_pipe (pos 3) process 100 101 (102, 103) process-IsTop refl refl
      (omega arith, omega arith) (omega arith, omega arith)

abbrev child : Process
child = record process { makeflags = print_makeflags (100, 101); cheat_var = print_pair (102, 103) }

abbrev life : List Call
life = starts true (codes "out") (forked 7) ∷ waits (turn ∷ []) ∷ []

abbrev ended : Server
ended = record server { finished = (codes "out", pos 0) ∷ [] }

life-ended : run server life ≡ ended
unfolding run step start job_started wait_jobs let_go release_down release_mine release release_loop
    release_round has_token create_token create_tokens destroy_tokens release_except_mine
    try_read_token find_job remove_job regain reap reap_all wait running ◌-ℤ◌ ◌+ℤ◌ exit_value
life-ended = refl

life-IsLean : IsLean (run server life)
life-IsLean =
    rw life-ended (record { positive = omega arith; single = omega arith; covered = omega arith })

settle-run_example :
    let (r, t) = settle (wins_only 5) (wins_only 5) (run server life) in
    (r ≡ ok tt) × (t.tokens ≡ 3 + (run server life).cheat_tokens) × (t.cheat_tokens ≡ 0)
settle-run_example =
    settle-run server life 5 5 (omega arith) (omega arith) refl life-IsLean (rw life-ended refl)
      (rw life-ended (omega arith)) (rw life-ended (omega arith))
