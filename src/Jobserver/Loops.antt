-- ===== src/Jobserver/Loops.antt =====
-- The loops of redo_core/src/jobserver.rs. A loop takes the list of its rounds; it answers with the
-- rounds that are left, and is cut off where they run out.
use redo.Base.{
  io, ℕ, zero, suc, ◌+◌, Bool, true, false, not, ◌&&◌, List, [], ◌∷◌, Text, if◌then◌else◌, ltb,
  ◌==◌, length, Result, ok, err, token_mismatch, not_flushed, no_token, out_of_fuel, ℤ, pos,
  pos_part, ◌+ℤ◌, ltb_ℤ,
}
use redo.Jobserver.{
  Server, Read, Turn, has_token, create_tokens, destroy_tokens, release, release_mine,
  release_except_mine, try_read_token, was_read, wait, running,
}

abbrev pub Outcome : Type 0 → Type 0
Outcome A = Result A × Server

-- `?`: an error ends the caller too.
abbrev pub and_then {ℓ κ} :
    {A : Type ℓ} {B : Type κ}
    → Result A × Server
    → (A → Server → Result B × Server)
    → Result B × Server
and_then (ok a, s) f = f a s
and_then (err e, s) f = (err e, s)

-- After the wait of a round: a token of a job, or one from the pipe. `more` is the next round.
unfoldable pub take_token :
    Bool → (Server → Outcome (List Turn)) → List Turn → Result Bool → Server → Outcome (List Turn)
take_token delay more ts (err e) s = (err e, s)
take_token delay more ts (ok true) s = (ok ts, record s { mytokens = s.mytokens +ℤ pos 1 })
take_token delay more ts (ok false) s = if delay then (ok ts, s) else more s

unfoldable pub after_wait :
    Bool → (Server → Outcome (List Turn)) → Turn → List Turn → Server → Outcome (List Turn)
unfolding take_token
after_wait delay more t ts s = elim (has_token s) [
  | true ↦ (ok ts, s)
  | false ↦
      let (r, left) = try_read_token t.read s.tokens in
      take_token delay more ts r (record s { tokens = left })
]

-- `ensure_token`, where `delay` says whether a longest delay was given.
unfoldable pub ensure_token : Bool → List Turn → Server → Outcome (List Turn)
unfolding after_wait
ensure_token delay [] s = if has_token s then (ok [], s) else (err out_of_fuel, s)
ensure_token delay (t ∷ ts) s = elim (has_token s) [
  | true ↦ (ok (t ∷ ts), s)
  | false ↦ and_then (wait t s) (λ _ u. after_wait delay (ensure_token delay ts) t ts u)
]

-- `while running() && !has_token() { ensure_token(reason, None)?; }`
unfoldable pub token_from_jobs : ℕ → List Turn → Server → Outcome (List Turn)
unfolding ensure_token
token_from_jobs zero ts s = (err out_of_fuel, s)
token_from_jobs (suc n) ts s = elim (running s && not (has_token s)) [
  | true ↦ and_then (ensure_token false ts s) (token_from_jobs n)
  | false ↦ (ok ts, s)
]

abbrev pub is_zero : ℤ → Bool
is_zero a = not (ltb_ℤ a (pos 0)) && not (ltb_ℤ (pos 0) a)

-- What an answer of `cheatfunc` leads to: a positive one is tokens out of nothing.
unfoldable pub cheat_with :
    (List ℕ → List Turn → Server → Outcome (List Turn))
    → List ℕ
    → List Turn
    → Server
    → Outcome (List Turn)
cheat_with more [] ts s = (err out_of_fuel, s)
cheat_with more (n ∷ answers) ts s =
    if ltb 0 n
    then (ok ts, record s { mytokens = s.mytokens +ℤ pos n; cheats = s.cheats + n })
    else more answers ts s

-- The end of a round of `ensure_token_or_cheat`.
unfoldable pub offer_cheat :
    (List ℕ → List Turn → Server → Outcome (List Turn))
    → List ℕ
    → List Turn
    → Server
    → Outcome (List Turn)
unfolding cheat_with
offer_cheat more answers ts s =
    if not (has_token s) && is_zero s.mytokens
    then cheat_with more answers ts s
    else more answers ts s

unfoldable pub ensure_token_or_cheat : ℕ → List ℕ → List Turn → Server → Outcome (List Turn)
unfolding token_from_jobs offer_cheat
ensure_token_or_cheat zero answers ts s = (err out_of_fuel, s)
ensure_token_or_cheat (suc n) answers ts s = elim (has_token s) [
  | true ↦ (ok ts, s)
  | false ↦
      and_then (token_from_jobs (suc (length ts)) ts s)
        (λ us t. and_then (ensure_token true us t) (offer_cheat (ensure_token_or_cheat n) answers))
]

-- What comes of `make_pipe(50)` and `fork`: a job whose pipe is `fd` here, or the failure of either.
pub data Fork : Type 0 where
  forked : ℕ → Fork
  no_pipe no_process : Fork

unfoldable pub job_started : Text → Fork → Server → Outcome (Unit {0})
job_started reason (forked fd) t =
    (ok tt, record t { waitfds = record { fd = fd; name = reason } ∷ t.waitfds })
job_started reason no_pipe t = (err io, t)
job_started reason no_process t = (err io, t)

-- `start`: the new job has the token of this process, which is gone also if the pipe or the fork fails.
-- `flushed` is `state::is_flushed()`.
unfoldable pub start : Bool → Text → Fork → Server → Outcome (Unit {0})
unfolding job_started
start flushed reason fork s =
    if not flushed
    then (err not_flushed, s)
    else if not (has_token s)
    then (err no_token, s)
    else job_started reason fork (destroy_tokens 1 s)

-- `while MYTOKENS >= 2 { release(1) }`
unfoldable pub release_down : ℕ → Server → Server
release_down zero s = s
release_down (suc k) s = elim (ltb_ℤ (pos 1) s.mytokens) [
  | true ↦ release_down k (release 1 s)
  | false ↦ s
]

-- What a round of `wait_all` does before it waits.
unfoldable pub let_go : Server → Server
unfolding release_down
let_go s = let t = release_down (pos_part s.mytokens) s in if has_token t then release_mine t else t

unfoldable pub wait_jobs : List Turn → Server → Outcome (List Turn)
unfolding let_go
wait_jobs [] s = if running s then (err out_of_fuel, s) else (ok [], s)
wait_jobs (t ∷ ts) s = elim (running s) [
  | true ↦ and_then (wait t (let_go s)) (λ _. wait_jobs ts)
  | false ↦ (ok (t ∷ ts), s)
]

-- The loops that empty a pipe of `n` bytes: how many were read, and what is left.
unfoldable pub drain : List Read → ℕ → ℕ × ℕ
drain [] n = (0, n)
drain (r ∷ rs) n =
    let (b, left) = try_read_token r n in
    let (count, rest) = drain rs left in if was_read b then (count + 1, rest) else (0, left)

-- The accounts that a toplevel process makes up at the end of `wait_all`.
unfoldable pub settle : List Read → List Read → Server → Outcome (Unit {0})
unfolding drain
settle token_reads cheat_reads s =
    if not (ltb 0 s.toplevel)
    then (ok tt, s)
    else let t = if has_token s then release_mine s else s in
      let (got, left) = drain token_reads t.tokens in
      let (cheated, cheats_left) = drain cheat_reads t.cheat_tokens in
      let u = record t { tokens = left; cheat_tokens = cheats_left } in
      if got == cheated + t.toplevel
      then (ok tt, record u { tokens = left + got })
      else (err token_mismatch, u)

unfoldable pub wait_all : List Turn → List Read → List Read → Server → Outcome (Unit {0})
unfolding wait_jobs settle
wait_all ts token_reads cheat_reads s =
    and_then (wait_jobs ts s) (λ _. settle token_reads cheat_reads)

-- The cheats that are left go to the cheat pipe, with the tokens that they stand for.
unfoldable pub return_cheats : Server → Server
return_cheats s =
    if ltb 0 s.cheats
    then (let t = destroy_tokens s.cheats (record s { cheat_tokens = s.cheat_tokens + s.cheats }) in
        record t { cheats = 0 })
    else s

unfoldable pub force_return_tokens : Server → Server
force_return_tokens s =
    let t = create_tokens (length s.waitfds) s in
    return_cheats (if has_token t then release_except_mine t else t)
