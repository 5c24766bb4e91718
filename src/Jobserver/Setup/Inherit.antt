-- ===== src/Jobserver/Setup/Inherit.antt =====
-- A child process finds the job server of its parent: what `setup` writes to the environment is
-- what `setup` of a child reads there.
use redo.Base.{
  ℕ, ◌+◌, ◌-◌, ◌^◌, ◌≤◌, ◌<◌, ◌≡◌, refl, ◌∙◌, ap, Bool, true, [], arith, length, Option, none, some,
  if◌then◌else◌, Result, ok, ℤ, pos, pos_part, neg_part, inl, inr, Option-cases,
}
use redo.Store.Rows.{is_some}
use redo.Jobserver.{Server, create_tokens, release_except_mine}
use redo.Jobserver.Balance.{credit, debit, create_tokens_lem, release_except_mine-SameBalance}
use redo.Jobserver.Exit.{create_tokens-Created, release_except_mine-Kept}
use redo.Jobserver.Setup.{
  inherited_cheats, choose_tokens, choose_cheats, with_parent, real_max, above, parse_makeflags,
  print_pair, print_makeflags, Process, setup,
}
use redo.Jobserver.Setup.Makeflags.{IsFd, parse_pair-print_pair, parse_makeflags-print_makeflags}

-- A process that has no job server above it and has not done anything.
pub record IsTop (p : Process) : Type 0 where
  pub unset : p.token_fds ≡ none
  pub orphan : parse_makeflags p.makeflags ≡ none
  pub one : p.server.mytokens ≡ pos 1
  pub no_cheats : p.server.cheats ≡ 0
  pub idle : p.server.waitfds ≡ []
  pub empty : p.server.tokens ≡ 0
  pub no_cheat_tokens : p.server.cheat_tokens ≡ 0

stock :
    (n : ℕ) (s : Server)
    → s.mytokens ≡ pos 1
    → s.cheats ≡ 0
    → let t = release_except_mine (create_tokens n s) in
      (pos_part t.mytokens ≡ 1)
      × (neg_part t.mytokens ≡ 0)
      × (t.cheats ≡ 0)
      × (t.tokens ≡ s.tokens + n)
      × (t.cheat_tokens ≡ s.cheat_tokens)
stock n s one no_cheats =
    let p : pos_part s.mytokens ≡ 1 = ap pos_part one in
    let q : neg_part s.mytokens ≡ 0 = ap neg_part one in
    let c = create_tokens-Created n s (omega (arith, p, q)) in
    let k = release_except_mine-Kept (create_tokens n s) (omega (arith, p, q, c)) in
    omega (arith, p, q, c, k)

if_none {ℓ} :
    {A : Type ℓ} (x y : A) (o : Option (ℕ × ℕ)) → o ≡ none → (if is_some o then x else y) ≡ y
if_none x y none e = refl
if_none x y (some a) e = cc

module _ (fd_exists : ℕ → Bool) (make_pipe : ℕ → Option (ℕ × ℕ)) where
  real_max_pos : (m : ℤ) → 1 ≤ real_max m
  real_max_pos m = ground arith

  abbrev Stocked : ℤ → ℕ → ℕ → Result (Unit {0}) × Process → Type 0
  Stocked m a b (r, q) =
      (r ≡ ok tt)
      × (credit q.server ≡ debit q.server + q.server.toplevel)
      × (q.server.toplevel ≡ real_max m)
      × (q.server.tokens ≡ real_max m - 1)
      × (parse_makeflags q.makeflags ≡ some (a, b))

  choose_tokens-Stocked :
      (m : ℤ) (p : Process) (a b : ℕ)
      → p.server.mytokens ≡ pos 1
      → p.server.cheats ≡ 0
      → p.server.waitfds ≡ []
      → p.server.tokens ≡ 0
      → p.server.cheat_tokens ≡ 0
      → make_pipe 100 ≡ some (a, b)
      → IsFd a
      → IsFd b
      → Stocked m a b (choose_tokens fd_exists make_pipe m none p)
  unfolding choose_tokens
  choose_tokens-Stocked m p a b one no_cheats idle empty no_cheat_tokens tokens ha hb =
      let n = real_max m in
      let s : Server = record p.server { toplevel = n } in
      let made = create_tokens_lem (n - 1) s in
      let kept = release_except_mine-SameBalance (create_tokens (n - 1) s) in
      let parts = stock (n - 1) s one no_cheats in
      rw (tokens, choose_tokens)
        (
          refl,
          omega (
            arith,
            real_max_pos m,
            made,
            kept.balance,
            kept.top,
            ap length idle,
            ap pos_part one,
            ap neg_part one,
          ),
          kept.top ∙ made.2,
          omega (arith, parts),
          parse_makeflags-print_makeflags a b ha hb,
        )

  choose_cheats-Stocked :
      (m : ℤ) (p : Process) (a b : ℕ) (cf : ℕ × ℕ)
      → IsTop p
      → make_pipe 100 ≡ some (a, b)
      → make_pipe 102 ≡ some cf
      → IsFd a
      → IsFd b
      → Stocked m a b (choose_cheats fd_exists make_pipe m none p)
  unfolding choose_cheats
  choose_cheats-Stocked m p a b cf v tokens cheats ha hb =
      let go = λ (q : Process) (e : q.server ≡ p.server).
        choose_tokens-Stocked m q a b (ap (λ (s : Server). s.mytokens) e ∙ v.one)
          (ap (λ (s : Server). s.cheats) e ∙ v.no_cheats)
          (ap (λ (s : Server). s.waitfds) e ∙ v.idle) (ap (λ (s : Server). s.tokens) e ∙ v.empty)
          (ap (λ (s : Server). s.cheat_tokens) e ∙ v.no_cheat_tokens) tokens ha hb in
      elim (Option-cases (inherited_cheats fd_exists make_pipe m p.cheat_var)) [
        | inl new ↦
            rw (new, choose_cheats, cheats)
              (go (record p { cheat_fds = some cf; cheat_var = print_pair cf }) refl)
        | inr (old, e) ↦ rw (e, choose_cheats) (go (record p { cheat_fds = some old }) refl)
      ]

  setup_unset :
      (m : ℤ) (p : Process) (o : Option (ℕ × ℕ))
      → p.token_fds ≡ none
      → parse_makeflags p.makeflags ≡ o
      → setup fd_exists make_pipe m p ≡ with_parent fd_exists make_pipe m o p
  unfolding setup
  setup_unset m p o unset e =
      if_none _ _ p.token_fds unset
      ∙ ap (λ (q : Option (ℕ × ℕ)). with_parent fd_exists make_pipe m q p) e

  -- If both pipes can be made, with token descriptors above 0 and below 2 ^ 31, the setup of a
  -- process without a parent, which holds one token and has no cheats, jobs or bytes in its
  -- pipes, succeeds; its balance is the number of jobs, the token pipe holds a token for each
  -- job but one, and its children find the pipe.
  pub setup-IsTop :
      (m : ℤ) (p : Process) (a b : ℕ) (cf : ℕ × ℕ)
      → IsTop p
      → make_pipe 100 ≡ some (a, b)
      → make_pipe 102 ≡ some cf
      → IsFd a
      → IsFd b
      → let (r, q) = setup fd_exists make_pipe m p in
        (r ≡ ok tt)
        × (credit q.server ≡ debit q.server + q.server.toplevel)
        × (q.server.toplevel ≡ real_max m)
        × (q.server.tokens ≡ real_max m - 1)
        × (parse_makeflags q.makeflags ≡ some (a, b))
  unfolding with_parent
  setup-IsTop m p a b cf v tokens cheats ha hb =
      rw (setup_unset m p none v.unset v.orphan)
        (choose_cheats-Stocked m p a b cf v tokens cheats ha hb)

  inherited_cheats-print_pair :
      (c d : ℕ)
      → (2 < c) × (c < 2 ^ 31)
      → (2 < d) × (d < 2 ^ 31)
      → fd_exists c ≡ true
      → fd_exists d ≡ true
      → inherited_cheats fd_exists make_pipe (pos 0) (print_pair (c, d)) ≡ some (c, d)
  unfolding inherited_cheats above
  inherited_cheats-print_pair c d hc hd ec ed =
      rw (parse_pair-print_pair c d hc.1 hd.1) (ground (arith, ec, ed))

  -- A child that is not given a number of jobs of its own uses the two pipes of its parent,
  -- and changes nothing else, if the descriptors exist, are below 2 ^ 31, and are above 0 for
  -- the token pipe and above 2 for the cheat pipe.
  pub setup-child :
      (p : Process) (a b c d : ℕ)
      → p.token_fds ≡ none
      → p.makeflags ≡ print_makeflags (a, b)
      → p.cheat_var ≡ print_pair (c, d)
      → IsFd a
      → IsFd b
      → (2 < c) × (c < 2 ^ 31)
      → (2 < d) × (d < 2 ^ 31)
      → (fd_exists a ≡ true) × (fd_exists b ≡ true) × (fd_exists c ≡ true) × (fd_exists d ≡ true)
      → setup fd_exists make_pipe (pos 0) p
        ≡ (ok tt, record p { token_fds = some (a, b); cheat_fds = some (c, d) })
  unfolding with_parent choose_cheats choose_tokens
  setup-child p a b c d unset flags var ha hb hc hd e =
      let cf =
        ap (inherited_cheats fd_exists make_pipe (pos 0)) var
        ∙ inherited_cheats-print_pair c d hc hd e.2 e.3 in
      setup_unset (pos 0) p (some (a, b)) unset
        (ap parse_makeflags flags ∙ parse_makeflags-print_makeflags a b ha hb)
      ∙ rw (e.0, e.1, with_parent) (rw (cf, choose_cheats) refl)
