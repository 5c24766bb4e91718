-- ===== src/Jobserver/Balance.antt =====
-- The token balance: what a process holds, lends to jobs and finds in the two pipes, over the
-- operations of Jobserver.
use redo.Base.{
  ℕ, zero, suc, ◌+◌, ◌≡◌, refl, ◌⊎◌, ◌∙◌, ap, Bool, true, false, List, [], ◌∷◌, arith,
  if◌then◌else◌, length, some, inl, inr, Bool-cases, Option-cases, pos, pos_part, neg_part, ltb_ℤ,
  +ℤ_parts, -ℤ_parts,
}
use redo.Jobserver.{
  Job, Server, Read, wins, loses, fails, Turn, Event, has_token, create_token, create_tokens,
  release_round, release_loop, release, release_except_mine, try_read_token, was_read, find_job,
  remove_job, regain, reap, reap_all, wait,
}

-- The tokens that a state accounts for, and those that it owes.
abbrev pub credit : Server → ℕ
credit s = pos_part s.mytokens + s.tokens + length s.waitfds

abbrev pub debit : Server → ℕ
debit s = neg_part s.mytokens + s.cheats + s.cheat_tokens

-- `credit - debit` is the same, and so is the number of tokens that the build began with.
pub record SameBalance (s t : Server) : Type 0 where
  pub balance : credit s + debit t ≡ credit t + debit s
  pub top : t.toplevel ≡ s.toplevel

pub SameBalance-refl : (s : Server) → SameBalance s s
SameBalance-refl s = record { balance = refl; top = refl }

pub SameBalance-trans : {s t u : Server} → SameBalance s t → SameBalance t u → SameBalance s u
SameBalance-trans {s} {t} {u} p q = record { balance = omega arith; top = q.top ∙ p.top }

-- `create_tokens` adds to the balance, and touches neither pipes nor jobs.
pub create_token_lem :
    (s : Server)
    → let t = create_token s in
      (credit t + debit s ≡ suc (credit s + debit t))
      × (t.waitfds ≡ s.waitfds)
      × (t.toplevel ≡ s.toplevel)
      × (t.tokens ≡ s.tokens)
      × (t.cheat_tokens ≡ s.cheat_tokens)
unfolding create_token
create_token_lem s = ground (arith, +ℤ_parts s.mytokens (pos 1))

pub create_tokens_lem :
    (n : ℕ) (s : Server)
    → let t = create_tokens n s in
      (credit t + debit s ≡ n + (credit s + debit t))
      × (t.waitfds ≡ s.waitfds)
      × (t.toplevel ≡ s.toplevel)
      × (t.tokens ≡ s.tokens)
      × (t.cheat_tokens ≡ s.cheat_tokens)
unfolding create_tokens
create_tokens_lem zero s = (omega arith, refl, refl, refl, refl)
create_tokens_lem (suc n) s =
    ground (arith, create_tokens_lem n (create_token s), create_token_lem s)

-- The loop of `release` takes tokens; what it is to share keeps the balance.
abbrev Released : ℕ × Server → ℕ × Server → Type 0
Released (k, s) (j, t) =
    (credit t + j + debit s ≡ credit s + k + debit t)
    × (t.waitfds ≡ s.waitfds)
    × (t.toplevel ≡ s.toplevel)
    × (t.tokens ≡ s.tokens)

release_round-Released : (r : ℕ × Server) → Released r (release_round r)
unfolding release_round
release_round-Released (k, s) = ground (arith, -ℤ_parts s.mytokens (pos 1))

Released-trans : (p q r : ℕ × Server) → Released p q → Released q r → Released p r
Released-trans (i, s) (j, t) (k, u) h g = (omega (arith, h.0, g.0), g.1 ∙ h.1, g.2 ∙ h.2, g.3 ∙ h.3)

release_loop-Released : (n : ℕ) (r : ℕ × Server) → Released r (release_loop n r)
unfolding release_loop
release_loop-Released zero r = (refl, refl, refl, refl)
release_loop-Released (suc n) r =
    Released-trans r (release_round r) (release_loop n (release_round r)) (release_round-Released r)
      (release_loop-Released n (release_round r))

pub release-SameBalance : (n : ℕ) (s : Server) → SameBalance s (release n s)
unfolding release
release-SameBalance n s =
    let h = release_loop-Released n (0, s) in
    record { balance = omega (arith, h.0, ap length h.1); top = h.2 }

pub release_except_mine-SameBalance : (s : Server) → SameBalance s (release_except_mine s)
unfolding release_except_mine
release_except_mine-SameBalance s = elim (Bool-cases (ltb_ℤ (pos 1) s.mytokens)) [
  | inl more ↦ rw more (release-SameBalance _ s)
  | inr few ↦ rw few (SameBalance-refl s)
]

waitfds-release : (n : ℕ) (s : Server) → (release n s).waitfds ≡ s.waitfds
unfolding release
waitfds-release n s = (release_loop-Released n (0, s)).1

SameBalance-except :
    (b : Bool) (t : Server) → SameBalance t (if b then release_except_mine t else t)
SameBalance-except true t = release_except_mine-SameBalance t
SameBalance-except false t = SameBalance-refl t

-- A job that ends gives back one token: its own, or for a cheat the debt of one.
regain-credit :
    (s : Server)
    → (credit (regain s) + debit s ≡ suc (credit s + debit (regain s)))
      × ((regain s).toplevel ≡ s.toplevel)
unfolding regain
regain-credit s =
    let c = create_tokens_lem 1 s in
    let k = SameBalance-except (has_token (create_tokens 1 s)) (create_tokens 1 s) in
    (omega (arith, c.0, k.balance), k.top ∙ c.2)

length-remove_job :
    (fd : ℕ) (js : List Job) (j : Job)
    → find_job fd js ≡ some j
    → suc (length (remove_job fd js)) ≡ length js
unfolding find_job remove_job
length-remove_job fd [] j e = cc
length-remove_job fd (x ∷ js) j e = ground (arith, length-remove_job fd js j)

-- What a read of a pipe tells: one byte less, or all that was there.
pub try_read_token_lem :
    (r : Read) (n : ℕ)
    → (was_read (try_read_token r n).0 ≡ true) × (suc (try_read_token r n).1 ≡ n)
      ⊎ (was_read (try_read_token r n).0 ≡ false) × ((try_read_token r n).1 ≡ n)
unfolding try_read_token
try_read_token_lem fails n = inr (refl, refl)
try_read_token_lem loses n = inr (refl, refl)
try_read_token_lem wins zero = inr (refl, refl)
try_read_token_lem wins (suc n) = inl (refl, refl)

reap-SameBalance :
    (e : Event) (j : Job) (s : Server)
    → find_job e.fd s.waitfds ≡ some j
    → SameBalance s (reap e j s)
unfolding reap
reap-SameBalance e j s h =
    let l = length-remove_job e.fd s.waitfds j h in
    let t : Server = record s {
      waitfds = remove_job e.fd s.waitfds;
      cheat_tokens = (try_read_token e.read s.cheat_tokens).1;
    } in
    elim (try_read_token_lem e.read s.cheat_tokens) [
      | inl (hit, less) ↦ rw hit (record { balance = omega arith; top = refl })
      | inr (miss, same) ↦
          rw miss
            (record { balance = omega (arith, (regain-credit t).0); top = (regain-credit t).1 })
    ]

pub reap_all-SameBalance : (es : List Event) (s : Server) → SameBalance s (reap_all es s)
unfolding reap_all
reap_all-SameBalance [] s = SameBalance-refl s
reap_all-SameBalance (e ∷ es) s = elim (Option-cases (find_job e.fd s.waitfds)) [
  | inl h ↦ rw (h, reap_all) (reap_all-SameBalance es s)
  | inr (j, h) ↦
      rw (h, reap_all)
        (SameBalance-trans (reap-SameBalance e j s h) (reap_all-SameBalance es (reap e j s)))
]

-- A round of waiting keeps the balance, whichever jobs end in it.
pub wait-SameBalance : (t : Turn) (s : Server) → SameBalance s (wait t s).1
unfolding wait
wait-SameBalance t s = elim (Bool-cases t.selects) [
  | inl good ↦ rw good (reap_all-SameBalance t.events s)
  | inr bad ↦ rw bad (SameBalance-refl s)
]
