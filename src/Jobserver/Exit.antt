-- ===== src/Jobserver/Exit.antt =====
-- The end of a process: the accounts of `wait_all` at the top of the build, and the tokens that
-- `force_return_tokens` hands back.
use redo.Base.{
  ℕ, zero, suc, ◌+◌, ◌-◌, ◌≤◌, ◌<◌, ◌≡◌, refl, ap, ◌↔◌, true, List, [], ◌∷◌, arith, if◌then◌else◌,
  length, ok, inl, inr, Bool-cases, pos, pos_part, neg_part, ◌+ℤ◌, ◌-ℤ◌, ltb_ℤ, +ℤ_parts, -ℤ_parts,
  one_part, ◌≤ℤ◌,
}
use redo.Jobserver.{
  Server, Read, wins, has_token, create_token, create_tokens, destroy_tokens, release_round,
  release_loop, release, release_mine, release_except_mine, try_read_token,
}
use redo.Jobserver.Loops.{drain, settle, return_cheats, force_return_tokens}
use redo.Jobserver.Balance.{credit, debit}

abbrev pub wins_only : ℕ → List Read
wins_only zero = []
wins_only (suc n) = wins ∷ wins_only n

-- With no other process at the pipe every byte is read.
drain_wins : (m n : ℕ) → n ≤ m → drain (wins_only m) n ≡ (n, 0)
unfolding drain try_read_token
drain_wins zero zero h = refl
drain_wins zero (suc n) h = elim h [ ]
drain_wins (suc m) zero h = ground (arith, drain_wins m zero)
drain_wins (suc m) (suc n) h = ground (arith, drain_wins m n)

-- At most the one token that a process may keep, and no cheat that it does not hold.
pub record IsLean (s : Server) : Type 0 where
  pub positive : pos 0 ≤ℤ s.mytokens
  pub single : s.mytokens ≤ℤ pos 1
  pub covered : s.cheats ≤ pos_part s.mytokens

mine : Server → Server
mine s = if has_token s then release_mine s else s

-- Giving the last token back pays off a cheat, or shares the token.
mine_lem :
    (s : Server)
    → IsLean s
    → ((mine s).cheat_tokens ≡ s.cheat_tokens)
      × ((mine s).toplevel ≡ s.toplevel)
      × ((mine s).tokens + s.cheats ≡ s.tokens + pos_part s.mytokens)
unfolding mine release_mine release release_loop release_round has_token
mine_lem s v = ground (arith, -ℤ_parts s.mytokens (pos 1))

-- The accounts of a toplevel process that runs alone, waits for no job, has at most one token
-- and no cheat beyond it, and reads both pipes until they are empty, are right exactly if the
-- balance is the number of tokens that it began with. Then the token pipe holds that number
-- and one more for each byte that was in the cheat pipe, which is empty.
pub settle_iff :
    (s : Server) (m n : ℕ)
    → IsLean s
    → s.waitfds ≡ []
    → 0 < s.toplevel
    → s.tokens + 1 ≤ m
    → s.cheat_tokens ≤ n
    → let (r, t) = settle (wins_only m) (wins_only n) s in
      ((r ≡ ok tt) ↔ (credit s ≡ debit s + s.toplevel))
      × (r ≡ ok tt → (t.tokens ≡ s.toplevel + s.cheat_tokens) × (t.cheat_tokens ≡ 0))
unfolding settle mine
settle_iff s m n v idle top hm hn =
    let d = drain_wins m (mine s).tokens (omega (arith, mine_lem s v, one_part s.mytokens)) in
    let c = drain_wins n (mine s).cheat_tokens (omega (arith, mine_lem s v, one_part s.mytokens)) in
    ground (arith, mine_lem s v, d, c, ap length idle)

-- `create_tokens` pays off cheats first.
abbrev pub Created : ℕ → Server → Server → Type 0
Created n s t =
    (t.cheats ≡ s.cheats - n)
    × (pos_part t.mytokens ≡ pos_part s.mytokens + (n - s.cheats))
    × (neg_part t.mytokens ≡ 0)
    × (t.tokens ≡ s.tokens)
    × (t.cheat_tokens ≡ s.cheat_tokens)

create_token-Created : (s : Server) → pos 0 ≤ℤ s.mytokens → Created 1 s (create_token s)
unfolding create_token
create_token-Created s h =
    ground (arith, +ℤ_parts s.mytokens (pos 1), one_part s.mytokens, one_part (s.mytokens +ℤ pos 1))

pub create_tokens-Created :
    (n : ℕ) (s : Server) → pos 0 ≤ℤ s.mytokens → Created n s (create_tokens n s)
unfolding create_tokens
create_tokens-Created zero s h = omega (arith, one_part s.mytokens)
create_tokens-Created (suc n) s h =
    let c = create_token-Created s h in
    omega (arith, c, create_tokens-Created n (create_token s) (omega (arith, c)))

-- `release` pays off cheats first, too.
abbrev Paid : ℕ → ℕ × Server → ℕ × Server → Type 0
Paid n (k, s) (j, t) =
    (t.cheats ≡ s.cheats - n)
    × (pos_part t.mytokens + n ≡ pos_part s.mytokens)
    × (neg_part t.mytokens ≡ 0)
    × (j ≡ k + (n - s.cheats))
    × (t.tokens ≡ s.tokens)
    × (t.cheat_tokens ≡ s.cheat_tokens)

release_round-Paid :
    (k : ℕ) (s : Server) → pos 1 ≤ℤ s.mytokens → Paid 1 (k, s) (release_round (k, s))
unfolding release_round
release_round-Paid k s h =
    ground (arith, -ℤ_parts s.mytokens (pos 1), one_part s.mytokens, one_part (s.mytokens -ℤ pos 1))

release_loop-Paid :
    (n k : ℕ) (s : Server) → pos n ≤ℤ s.mytokens → Paid n (k, s) (release_loop n (k, s))
unfolding release_loop
release_loop-Paid zero k s h = omega (arith, one_part s.mytokens)
release_loop-Paid (suc n) k s h =
    let c = release_round-Paid k s (omega arith) in
    let (j, t) = release_round (k, s) in
    omega (arith, c, release_loop-Paid n j t (omega (arith, c)))

-- No cheat is granted for more than the tokens that the process has or has lent.
pub record IsCovered (s : Server) : Type 0 where
  pub positive : pos 0 ≤ℤ s.mytokens
  pub covered : s.cheats ≤ pos_part s.mytokens + length s.waitfds

abbrev pub Kept : Server → Server → Type 0
Kept s t =
    (pos_part t.mytokens ≡ 1)
    × (neg_part t.mytokens ≡ 0)
    × (t.cheats ≡ s.cheats - (pos_part s.mytokens - 1))
    × (t.tokens ≡ s.tokens + ((pos_part s.mytokens - 1) - s.cheats))
    × (t.cheat_tokens ≡ s.cheat_tokens)

release-Kept :
    (n : ℕ) (s : Server)
    → suc n ≡ pos_part s.mytokens
    → neg_part s.mytokens ≡ 0
    → Kept s (release n s)
unfolding release
release-Kept n s size whole = omega (arith, release_loop-Paid n 0 s (omega arith), size)

-- Exactly one token is kept.
pub release_except_mine-Kept : (s : Server) → pos 1 ≤ℤ s.mytokens → Kept s (release_except_mine s)
unfolding release_except_mine
release_except_mine-Kept s h =
    let n = pos_part (s.mytokens -ℤ pos 1) in
    let size : suc n ≡ pos_part s.mytokens =
      omega
        (arith, -ℤ_parts s.mytokens (pos 1), one_part s.mytokens, one_part (s.mytokens -ℤ pos 1)) in
    elim (Bool-cases (ltb_ℤ (pos 1) s.mytokens)) [
      | inl more ↦ rw more (release-Kept n s size (omega (arith, one_part s.mytokens)))
      | inr few ↦ rw few (ground (arith, one_part s.mytokens))
    ]

return_cheats-parts :
    (s : Server)
    → pos_part s.mytokens ≡ 1
    → neg_part s.mytokens ≡ 0
    → s.cheats ≤ 1
    → let t = return_cheats s in
      (pos 0 ≤ℤ t.mytokens)
      × (t.mytokens ≤ℤ pos 1)
      × (t.cheats ≡ 0)
      × (t.tokens ≡ s.tokens)
      × (t.cheat_tokens ≡ s.cheat_tokens + s.cheats)
      × (pos_part t.mytokens + s.cheats ≡ 1)
unfolding return_cheats destroy_tokens
return_cheats-parts s one none few =
    ground (arith, -ℤ_parts s.mytokens (pos s.cheats), one_part (s.mytokens -ℤ pos s.cheats))

has_token_lem : (s : Server) → has_token s ≡ true → pos 1 ≤ℤ s.mytokens
unfolding has_token
has_token_lem s h = ground (arith, one_part s.mytokens)

-- If no more cheats were granted than the process has or has lent tokens, and a token is left
-- when it ends, then its own count and the cheat tokens that it put in the pipe make one, its
-- own count does not become negative, no cheat is left, and the two pipes with the token that
-- the parent regains add up to the balance. Writes to the pipes succeed.
pub force_return_tokens-balance :
    (s : Server)
    → IsCovered s
    → has_token (create_tokens (length s.waitfds) s) ≡ true
    → let t = force_return_tokens s in
      (pos 0 ≤ℤ t.mytokens)
      × (t.mytokens ≤ℤ pos 1)
      × (t.cheats ≡ 0)
      × (pos_part t.mytokens + t.cheat_tokens ≡ 1 + s.cheat_tokens)
      × (credit s + t.cheat_tokens ≡ debit s + t.tokens + 1)
unfolding force_return_tokens
force_return_tokens-balance s v h =
    let t = create_tokens (length s.waitfds) s in
    let c = create_tokens-Created (length s.waitfds) s v.positive in
    let one = has_token_lem t h in
    let r = release_except_mine-Kept t one in
    let b = return_cheats-parts (release_except_mine t) r.0 r.1 (omega (arith, r, c)) in
    rw h (omega (arith, r, c, b, one, one_part s.mytokens))
