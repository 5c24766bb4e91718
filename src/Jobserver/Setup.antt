-- ===== src/Jobserver/Setup.antt =====
-- `parse_makeflags` and `setup` of redo_core/src/jobserver.rs. The environment variables MAKEFLAGS
-- and REDO_CHEATFDS are texts, empty where they are unset; `fd_exists` and `make_pipe` are the
-- operating system's.
pub mod Makeflags
pub mod Inherit
use redo.Base.{
  ℕ, suc, ◌+◌, ◌-◌, ◌^◌, Bool, true, false, not, ◌&&◌, ◌||◌, List, [], ◌∷◌, ◌++◌, Text, codes,
  Option, none, some, if◌then◌else◌, ltb, leb, ◌==◌, Result, ok, err, broken_jobserver, io, ℤ, pos,
  negsuc, pos_part, ◌-ℤ◌, ltb_ℤ, split_on, to_string, parse_digits, after,
}
use redo.Store.Rows.{is_some}
use redo.Jobserver.{Server, create_tokens, release_except_mine}
use redo.Jobserver.Loops.{is_zero}

-- `parse::<i32>()`: an optional sign and digits, within the bounds of the type.
abbrev negative : Option ℕ → Option ℤ
negative none = none
negative (some n) = if leb n (2 ^ 31) then some (pos 0 -ℤ pos n) else none

abbrev positive : Option ℕ → Option ℤ
positive none = none
positive (some n) = if ltb n (2 ^ 31) then some (pos n) else none

unfoldable pub parse_i32 : Text → Option ℤ
unfolding parse_digits
parse_i32 [] = none
parse_i32 (c ∷ s) =
    if c == b'-'
    then negative (parse_digits s)
    else if c == b'+'
    then positive (parse_digits s)
    else positive (parse_digits (c ∷ s))

abbrev pub both : Option ℤ → Option ℤ → Option (ℤ × ℤ)
both none b = none
both (some a) none = none
both (some a) (some b) = some (a, b)

-- The first two pieces between commas, both numbers.
abbrev pub parse_two : List Text → Option (ℤ × ℤ)
unfolding parse_i32
parse_two [] = none
parse_two (v ∷ []) = none
parse_two (v ∷ w ∷ ws) = both (parse_i32 v) (parse_i32 w)

unfoldable pub parse_pair : Text → Option (ℤ × ℤ)
unfolding parse_two split_on
parse_pair s = parse_two (split_on b',' s)

-- Both descriptors above a bound.
unfoldable pub above : ℕ → Option (ℤ × ℤ) → Option (ℕ × ℕ)
above n none = none
above n (some (a, b)) =
    if ltb_ℤ (pos n) a && ltb_ℤ (pos n) b then some (pos_part a, pos_part b) else none

-- `split(' ').next().unwrap_or("")`
abbrev pub first_piece : List Text → Text
first_piece [] = []
first_piece (w ∷ ws) = w

unfoldable pub parse_arg : Text → Option (ℕ × ℕ)
unfolding parse_pair above split_on
parse_arg rest = above 0 (parse_pair (first_piece (split_on b' ' rest)))

unfoldable pub parse_makeflags : Text → Option (ℕ × ℕ)
unfolding after parse_arg
parse_makeflags var =
    let flags = b' ' ∷ var ++ (b' ' ∷ []) in
    elim (after (codes " --jobserver-auth=") flags) [
      | some rest ↦ parse_arg rest
      | none ↦ elim (after (codes " --jobserver-fds=") flags) [
        | some rest ↦ parse_arg rest
        | none ↦ none
      ]
    ]

-- `format!("{},{}", a, b)`
unfoldable pub print_pair : ℕ × ℕ → Text
unfolding to_string
print_pair (a, b) = to_string a ++ (b',' ∷ to_string b)

unfoldable pub print_makeflags : ℕ × ℕ → Text
unfolding print_pair
print_makeflags fds =
    codes " -j --jobserver-auth=" ++ print_pair fds ++ codes " --jobserver-fds=" ++ print_pair fds

-- The state of a process that `setup` changes.
pub record Process : Type 0 where
  pub server : Server
  pub token_fds : Option (ℕ × ℕ)
  pub cheat_fds : Option (ℕ × ℕ)
  pub makeflags : Text
  pub cheat_var : Text

-- The size of a new token pipe's stock.
abbrev pub real_max : ℤ → ℕ
real_max m = if ltb_ℤ (pos 0) m then pos_part m else 1

module _ (fd_exists : ℕ → Bool) (make_pipe : ℕ → Option (ℕ × ℕ)) where
  abbrev pub usable : Option (ℕ × ℕ) → Option (ℕ × ℕ)
  usable none = none
  usable (some (a, b)) = if fd_exists a && fd_exists b then some (a, b) else none

  -- The cheat pipe of the parent, which only a process without a job number of its own looks for.
  unfoldable pub inherited_cheats : ℤ → Text → Option (ℕ × ℕ)
  unfolding above parse_pair
  inherited_cheats m var = if is_zero m then usable (above 2 (parse_pair var)) else none

  -- The token pipe of the parent, or a new one with its tokens.
  unfoldable pub choose_tokens : ℤ → Option (ℕ × ℕ) → Process → Result (Unit {0}) × Process
  unfolding create_tokens release_except_mine print_makeflags
  choose_tokens m (some fds) p = (ok tt, record p { token_fds = some fds })
  choose_tokens m none p = elim (make_pipe 100) [
    | none ↦ (err io, p)
    | some fds ↦ (
      ok tt,
      record p {
        server =
            release_except_mine
              (create_tokens (real_max m - 1) (record p.server { toplevel = real_max m }));
        token_fds = some fds;
        makeflags = print_makeflags fds;
      },
    )
  ]

  unfoldable pub choose_cheats : ℤ → Option (ℕ × ℕ) → Process → Result (Unit {0}) × Process
  unfolding inherited_cheats choose_tokens print_pair
  choose_cheats m fds p = elim (inherited_cheats m p.cheat_var) [
    | some cf ↦ choose_tokens m fds (record p { cheat_fds = some cf })
    | none ↦ elim (make_pipe 102) [
      | none ↦ (err io, p)
      | some cf ↦ choose_tokens m fds (record p { cheat_fds = some cf; cheat_var = print_pair cf })
    ]
  ]

  unfoldable pub with_parent : ℤ → Option (ℕ × ℕ) → Process → Result (Unit {0}) × Process
  unfolding choose_cheats
  with_parent m none p = choose_cheats m none p
  with_parent m (some (a, b)) p =
      if not (fd_exists a) || not (fd_exists b)
      then (err broken_jobserver, p)
      else choose_cheats m (if is_zero m then some (a, b) else none) p

  unfoldable pub setup : ℤ → Process → Result (Unit {0}) × Process
  unfolding with_parent parse_makeflags
  setup m p =
      if is_some p.token_fds then (ok tt, p) else with_parent m (parse_makeflags p.makeflags) p
