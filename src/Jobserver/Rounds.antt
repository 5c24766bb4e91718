-- ===== src/Jobserver/Rounds.antt =====
-- The token balance over the loops of Jobserver/Loops, and over sequences of calls.
use redo.Base.{
  ◌+◌, ◌∙◌, ℕ, zero, suc, ◌≡◌, refl, ◌⊎◌, Bool, true, false, not, ◌&&◌, List, [], ◌∷◌, arith, Text,
  if◌then◌else◌, ltb, length, Result, ok, err, inl, inr, Bool-cases, pos, pos_part, ltb_ℤ, +ℤ_parts,
  -ℤ_parts,
}
use redo.Jobserver.{
  Server, Turn, has_token, destroy_tokens, release, release_mine, was_read, wait, running,
}
use redo.Jobserver.Loops.{
  Outcome, and_then, take_token, after_wait, ensure_token, token_from_jobs, cheat_with, offer_cheat,
  ensure_token_or_cheat, Fork, forked, no_pipe, no_process, job_started, start, is_zero,
  release_down, let_go, wait_jobs,
}
use redo.Jobserver.Balance.{
  credit, debit, SameBalance, SameBalance-refl, SameBalance-trans, try_read_token_lem,
  release-SameBalance, wait-SameBalance,
}

SameBalance-and_then :
    {A B : Type 0} (s : Server) (m : Result A × Server) (f : A → Server → Result B × Server)
    → SameBalance s m.1
    → ((a : A) (t : Server) → SameBalance t (f a t).1)
    → SameBalance s (and_then m f).1
SameBalance-and_then s (ok a, t) f h k = SameBalance-trans h (k a t)
SameBalance-and_then s (err e, t) f h k = h

-- What a read of the token pipe leaves there.
abbrev Reads : Result Bool → ℕ → ℕ → Type 0
Reads r left n = (was_read r ≡ true) × (suc left ≡ n) ⊎ (was_read r ≡ false) × (left ≡ n)

take_token-SameBalance :
    (delay : Bool) (more : Server → Outcome (List Turn)) (ts : List Turn) (r : Result Bool)
    (left : ℕ) (s : Server)
    → Reads r left s.tokens
    → ((u : Server) → SameBalance u (more u).1)
    → SameBalance s (take_token delay more ts r (record s { tokens = left })).1
unfolding take_token
take_token-SameBalance delay more ts (err e) left s h k = record {
  balance = ground arith;
  top = refl;
}
take_token-SameBalance delay more ts (ok true) left s h k = record {
  balance = ground (arith, +ℤ_parts s.mytokens (pos 1));
  top = refl;
}
take_token-SameBalance true more ts (ok false) left s h k = record {
  balance = ground arith;
  top = refl;
}
take_token-SameBalance false more ts (ok false) left s h k =
    SameBalance-trans (record { balance = ground arith; top = refl })
      (k (record s { tokens = left }))

after_wait-SameBalance :
    (delay : Bool) (more : Server → Outcome (List Turn)) (t : Turn) (ts : List Turn) (s : Server)
    → ((u : Server) → SameBalance u (more u).1)
    → SameBalance s (after_wait delay more t ts s).1
unfolding after_wait
after_wait-SameBalance delay more t ts s k = elim (Bool-cases (has_token s)) [
  | inl have ↦ rw (have, after_wait) (SameBalance-refl s)
  | inr lack ↦
      rw (lack, after_wait)
        (take_token-SameBalance delay more ts _ _ s (try_read_token_lem t.read s.tokens) k)
]

ensure_token-SameBalance :
    (delay : Bool) (ts : List Turn) (s : Server) → SameBalance s (ensure_token delay ts s).1
unfolding ensure_token
ensure_token-SameBalance delay [] s = elim (Bool-cases (has_token s)) [
  | inl have ↦ rw have (SameBalance-refl s)
  | inr lack ↦ rw lack (SameBalance-refl s)
]
ensure_token-SameBalance delay (t ∷ ts) s = elim (Bool-cases (has_token s)) [
  | inl have ↦ rw (have, ensure_token) (SameBalance-refl s)
  | inr lack ↦
      rw (lack, ensure_token)
        (SameBalance-and_then s (wait t s) (λ _ u. after_wait delay (ensure_token delay ts) t ts u)
          (wait-SameBalance t s)
          (λ _ u.
            after_wait-SameBalance delay (ensure_token delay ts) t ts u
              (ensure_token-SameBalance delay ts)))
]

token_from_jobs-SameBalance :
    (n : ℕ) (ts : List Turn) (s : Server) → SameBalance s (token_from_jobs n ts s).1
unfolding token_from_jobs
token_from_jobs-SameBalance zero ts s = SameBalance-refl s
token_from_jobs-SameBalance (suc n) ts s = elim (Bool-cases (running s && not (has_token s))) [
  | inl go ↦
      rw (go, token_from_jobs)
        (SameBalance-and_then s (ensure_token false ts s) (token_from_jobs n)
          (ensure_token-SameBalance false ts s) (token_from_jobs-SameBalance n))
  | inr end ↦ rw (end, token_from_jobs) (SameBalance-refl s)
]

cheat_with-SameBalance :
    (more : List ℕ → List Turn → Server → Outcome (List Turn)) (answers : List ℕ) (ts : List Turn)
    (s : Server)
    → ((bs : List ℕ) (us : List Turn) (u : Server) → SameBalance u (more bs us u).1)
    → SameBalance s (cheat_with more answers ts s).1
unfolding cheat_with
cheat_with-SameBalance more [] ts s k = SameBalance-refl s
cheat_with-SameBalance more (n ∷ answers) ts s k = elim (Bool-cases (ltb 0 n)) [
  | inl some_tokens ↦
      rw some_tokens (record { balance = omega (arith, +ℤ_parts s.mytokens (pos n)); top = refl })
  | inr none_at_all ↦ rw none_at_all (k answers ts s)
]

offer_cheat-SameBalance :
    (more : List ℕ → List Turn → Server → Outcome (List Turn)) (answers : List ℕ) (ts : List Turn)
    (s : Server)
    → ((bs : List ℕ) (us : List Turn) (u : Server) → SameBalance u (more bs us u).1)
    → SameBalance s (offer_cheat more answers ts s).1
unfolding offer_cheat
offer_cheat-SameBalance more answers ts s k =
    elim (Bool-cases (not (has_token s) && is_zero s.mytokens)) [
      | inl ask ↦ rw ask (cheat_with-SameBalance more answers ts s k)
      | inr wait ↦ rw wait (k answers ts s)
    ]

ensure_token_or_cheat-SameBalance :
    (n : ℕ) (answers : List ℕ) (ts : List Turn) (s : Server)
    → SameBalance s (ensure_token_or_cheat n answers ts s).1
unfolding ensure_token_or_cheat
ensure_token_or_cheat-SameBalance zero answers ts s = SameBalance-refl s
ensure_token_or_cheat-SameBalance (suc n) answers ts s = elim (Bool-cases (has_token s)) [
  | inl have ↦ rw (have, ensure_token_or_cheat) (SameBalance-refl s)
  | inr lack ↦
      rw (lack, ensure_token_or_cheat)
        (SameBalance-and_then s (token_from_jobs (suc (length ts)) ts s) _
          (token_from_jobs-SameBalance (suc (length ts)) ts s)
          (λ us t.
            SameBalance-and_then t (ensure_token true us t) _ (ensure_token-SameBalance true us t)
              (λ vs u.
                offer_cheat-SameBalance (ensure_token_or_cheat n) answers vs u
                  (ensure_token_or_cheat-SameBalance n))))
]

-- The balance of the second state is short of that of the first by `n` tokens.
pub record Loses (n : ℕ) (s t : Server) : Type 0 where
  pub balance : credit s + debit t ≡ credit t + debit s + n
  pub top : t.toplevel ≡ s.toplevel

Loses-none : {s t : Server} → SameBalance s t → Loses 0 s t
Loses-none h = record { balance = omega (arith, h.balance); top = h.top }

-- The tokens that a start loses: one, if it gets as far as the pipe and the job does not start.
abbrev pub failed_start : Bool → Fork → Server → ℕ
failed_start flushed (forked fd) s = 0
failed_start flushed no_pipe s = if flushed && has_token s then 1 else 0
failed_start flushed no_process s = if flushed && has_token s then 1 else 0

start-Loses :
    (flushed : Bool) (reason : Text) (fork : Fork) (s : Server)
    → Loses (failed_start flushed fork s) s (start flushed reason fork s).1
unfolding start job_started destroy_tokens
start-Loses flushed reason (forked fd) s = record {
  balance = ground (arith, -ℤ_parts s.mytokens (pos 1));
  top = ground arith;
}
start-Loses flushed reason no_pipe s = record {
  balance = ground (arith, -ℤ_parts s.mytokens (pos 1));
  top = ground arith;
}
start-Loses flushed reason no_process s = record {
  balance = ground (arith, -ℤ_parts s.mytokens (pos 1));
  top = ground arith;
}

release_down-SameBalance : (k : ℕ) (s : Server) → SameBalance s (release_down k s)
unfolding release_down
release_down-SameBalance zero s = SameBalance-refl s
release_down-SameBalance (suc k) s = elim (Bool-cases (ltb_ℤ (pos 1) s.mytokens)) [
  | inl more ↦
      rw (more, release_down)
        (SameBalance-trans (release-SameBalance 1 s) (release_down-SameBalance k (release 1 s)))
  | inr few ↦ rw (few, release_down) (SameBalance-refl s)
]

release_mine-SameBalance : (s : Server) → SameBalance s (release_mine s)
unfolding release_mine
release_mine-SameBalance s = release-SameBalance 1 s

SameBalance-mine : (b : Bool) (t : Server) → SameBalance t (if b then release_mine t else t)
SameBalance-mine true t = release_mine-SameBalance t
SameBalance-mine false t = SameBalance-refl t

let_go-SameBalance : (s : Server) → SameBalance s (let_go s)
unfolding let_go
let_go-SameBalance s =
    SameBalance-trans (release_down-SameBalance (pos_part s.mytokens) s) (SameBalance-mine _ _)

pub wait_jobs-SameBalance : (ts : List Turn) (s : Server) → SameBalance s (wait_jobs ts s).1
unfolding wait_jobs
wait_jobs-SameBalance [] s = elim (Bool-cases (running s)) [
  | inl busy ↦ rw busy (SameBalance-refl s)
  | inr idle ↦ rw idle (SameBalance-refl s)
]
wait_jobs-SameBalance (t ∷ ts) s = elim (Bool-cases (running s)) [
  | inl busy ↦
      rw (busy, wait_jobs)
        (SameBalance-and_then s (wait t (let_go s)) _
          (SameBalance-trans (let_go-SameBalance s) (wait-SameBalance t (let_go s)))
          (λ _. wait_jobs-SameBalance ts))
  | inr idle ↦ rw (idle, wait_jobs) (SameBalance-refl s)
]

-- What a process does with the job server between its setup and its end.
pub data Call : Type 0 where
  ensures : Bool → List Turn → Call
  ensures_or_cheats : ℕ → List ℕ → List Turn → Call
  starts : Bool → Text → Fork → Call
  releases : Call
  waits : List Turn → Call

unfoldable pub step : Server → Call → Server
step s (ensures delay ts) = (ensure_token delay ts s).1
step s (ensures_or_cheats n answers ts) = (ensure_token_or_cheat n answers ts s).1
step s (starts flushed reason fork) = (start flushed reason fork s).1
step s releases = release_mine s
step s (waits ts) = (wait_jobs ts s).1

unfoldable pub run : Server → List Call → Server
unfolding step
run s [] = s
run s (c ∷ cs) = run (step s c) cs

-- The tokens that the calls lose: one for each start that fails at its pipe or fork.
abbrev pub lost : Server → Call → ℕ
lost s (ensures delay ts) = 0
lost s (ensures_or_cheats n answers ts) = 0
lost s (starts flushed reason fork) = failed_start flushed fork s
lost s releases = 0
lost s (waits ts) = 0

abbrev pub lost_in : Server → List Call → ℕ
lost_in s [] = 0
lost_in s (c ∷ cs) = lost s c + lost_in (step s c) cs

step-Loses : (s : Server) (c : Call) → Loses (lost s c) s (step s c)
unfolding step
step-Loses s (ensures delay ts) = Loses-none (ensure_token-SameBalance delay ts s)
step-Loses s (ensures_or_cheats n answers ts) =
    Loses-none (ensure_token_or_cheat-SameBalance n answers ts s)
step-Loses s (starts flushed reason fork) = start-Loses flushed reason fork s
step-Loses s releases = Loses-none (release_mine-SameBalance s)
step-Loses s (waits ts) = Loses-none (wait_jobs-SameBalance ts s)

-- Over every sequence of calls, whichever jobs end, reads lose a race, cheats are granted and
-- calls fail, the balance of tokens changes only by the starts that fail at their pipe or
-- fork: each of them loses one token. Writes to the pipes succeed.
pub run-Loses : (s : Server) (cs : List Call) → Loses (lost_in s cs) s (run s cs)
unfolding run
run-Loses s [] = Loses-none (SameBalance-refl s)
run-Loses s (c ∷ cs) =
    let first = step-Loses s c in
    let rest = run-Loses (step s c) cs in
    record { balance = omega (arith, first.balance, rest.balance); top = rest.top ∙ first.top }
