-- ===== src/Jobserver.antt =====
-- redo_core/src/jobserver.rs: the tokens of one process, and the two pipes that all processes of a
-- build share. What the operating system decides in a call (which jobs have ended, whether another
-- process was faster) is an argument: a `Turn` for each round of a loop.
pub mod Loops
pub mod Balance
pub mod Rounds
pub mod Exit
pub mod Accounts
pub mod Setup
use redo.Base.{
  ℕ, zero, suc, ◌+◌, ◌-◌, Bool, true, false, not, ◌&&◌, ◌||◌, List, [], ◌∷◌, ◌++◌, Text, Option,
  none, some, if◌then◌else◌, ltb, leb, ◌==◌, Result, ok, err, Error, broken_jobserver,
  token_mismatch, not_flushed, no_token, out_of_fuel, ℤ, pos, negsuc, pos_part, neg_part, sub_ℕ,
  ◌+ℤ◌, ◌-ℤ◌, ltb_ℤ,
}

pub record Job : Type 0 where
  pub fd : ℕ
  pub name : Text

-- TOPLEVEL, MYTOKENS, CHEATS and WAITFDS of the process; the bytes in the token pipe and in the
-- cheat pipe; and the calls of `done` that were made, with the exit value of the job.
pub record Server : Type 0 where
  pub toplevel : ℕ
  pub mytokens : ℤ
  pub cheats : ℕ
  pub waitfds : List Job
  pub tokens : ℕ
  pub cheat_tokens : ℕ
  pub finished : List (Text × ℤ)

unfoldable pub has_token : Server → Bool
has_token s = not (ltb_ℤ s.mytokens (pos 1))

unfoldable pub create_token : Server → Server
create_token s =
    if ltb 0 s.cheats
    then record s { cheats = s.cheats - 1 }
    else record s { mytokens = s.mytokens +ℤ pos 1 }

unfoldable pub create_tokens : ℕ → Server → Server
create_tokens zero s = s
create_tokens (suc n) s = create_tokens n (create_token s)

unfoldable pub destroy_tokens : ℕ → Server → Server
destroy_tokens n s = record s { mytokens = s.mytokens -ℤ pos n }

-- One round of the loop of `release`: the token goes, against a cheat or to be shared.
unfoldable pub release_round : ℕ × Server → ℕ × Server
release_round (to_share, s) =
    let t = record s { mytokens = s.mytokens -ℤ pos 1 } in
    if ltb 0 s.cheats then (to_share, record t { cheats = s.cheats - 1 }) else (to_share + 1, t)

unfoldable pub release_loop : ℕ → ℕ × Server → ℕ × Server
release_loop zero r = r
release_loop (suc n) r = release_loop n (release_round r)

unfoldable pub release : ℕ → Server → Server
release n s = let (to_share, t) = release_loop n (0, s) in record t { tokens = t.tokens + to_share }

unfoldable pub release_mine : Server → Server
release_mine s = release 1 s

unfoldable pub release_except_mine : Server → Server
release_except_mine s =
    if ltb_ℤ (pos 1) s.mytokens then release (pos_part (s.mytokens -ℤ pos 1)) s else s

-- A read of one byte that select called possible: it succeeds, another process was faster, or
-- the call fails.
pub data Read : Type 0 where
  wins loses fails : Read

-- `try_read_token` on a pipe with `n` bytes: whether a byte was read, and what is left.
unfoldable pub try_read_token : Read → ℕ → Result Bool × ℕ
try_read_token fails n = (err broken_jobserver, n)
try_read_token loses n = (ok false, n)
try_read_token wins zero = (ok false, zero)
try_read_token wins (suc n) = (ok true, n)

-- What `waitpid` reports, and the exit value that `done` is called with.
pub data Status : Type 0 where
  exited signaled : ℕ → Status
  other : Status

unfoldable pub exit_value : Status → ℤ
exit_value (exited n) = pos n
exit_value (signaled n) = pos 0 -ℤ pos n
exit_value other = pos 201

-- A job whose pipe is readable: its status, and the read of the cheat pipe that follows.
pub record Event : Type 0 where
  pub fd : ℕ
  pub status : Status
  pub read : Read

-- `waitfds.remove(&fd)`
unfoldable pub find_job : ℕ → List Job → Option Job
find_job fd [] = none
find_job fd (j ∷ js) = if j.fd == fd then some j else find_job fd js

unfoldable pub remove_job : ℕ → List Job → List Job
remove_job fd [] = []
remove_job fd (j ∷ js) = if j.fd == fd then js else j ∷ remove_job fd js

-- `try_read_token(cf).ok().flatten()` is none unless a byte was read.
abbrev pub was_read : Result Bool → Bool
was_read (ok b) = b
was_read (err e) = false

-- The token of a job that has ended, and what exceeds one token goes back to the pipe.
unfoldable pub regain : Server → Server
regain s = let t = create_tokens 1 s in if has_token t then release_except_mine t else t

-- The body of the loop over `done_fds`, for a job that was found.
unfoldable pub reap : Event → Job → Server → Server
reap e job s =
    let (r, left) = try_read_token e.read s.cheat_tokens in
    let t = record s { waitfds = remove_job e.fd s.waitfds; cheat_tokens = left } in
    let u = if was_read r then t else regain t in
    record u { finished = u.finished ++ ((job.name, exit_value e.status) ∷ []) }

unfoldable pub reap_all : List Event → Server → Server
reap_all [] s = s
reap_all (e ∷ es) s =
    reap_all es (elim (find_job e.fd s.waitfds) [ none ↦ s | some job ↦ reap e job s ])

-- One round: whether select succeeds, the jobs that it reports in the order in which the hash map
-- lists them, and the read of the token pipe.
pub record Turn : Type 0 where
  pub selects : Bool
  pub events : List Event
  pub read : Read

unfoldable pub wait : Turn → Server → Result (Unit {0}) × Server
wait t s = if t.selects then (ok tt, reap_all t.events s) else (err broken_jobserver, s)

unfoldable pub running : Server → Bool
running s = elim s.waitfds [ [] ↦ false | j ∷ js ↦ true ]
