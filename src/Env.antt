-- ===== src/Env.antt =====
-- redo_core/src/env.rs: the settings of a process, which it reads from its environment variables
-- each time anew, and the two flags that it remembers after it has cleared their variables.
pub mod Find
use redo.Base.{
  ℕ, ◌-◌, ◌^◌, Bool, true, false, not, ◌&&◌, ◌||◌, List, [], ◌∷◌, Text, codes, text_eq, is_empty,
  Option, none, some, ◌==◌, if◌then◌else◌, ltb, leb, ℤ, pos, negsuc, text_or, parse_digits,
  trim_end_by, Result, ok, err, Error, not_in_do,
}
use redo.Store.Rows.{is_some}

-- The settings of `from_env`. Numbers are `i32`, the run id is `i64`.
pub record Env : Type 0 where
  pub base : Text
  pub pwd : Text
  pub target : Text
  pub depth : Text
  pub debug : ℤ
  pub debug_locks : Bool
  pub debug_pids : Bool
  pub locks_broken : Bool
  pub verbose : ℤ
  pub xtrace : ℤ
  pub keep_going : Bool
  pub log : ℤ
  pub log_inode : Text
  pub color : ℤ
  pub pretty : ℤ
  pub shuffle : Bool
  pub startdir : Text
  pub runid : Option ℤ
  pub unlocked : Bool
  pub no_oob : Bool
  pub strict : Bool
  pub strict_fail : Bool

-- A process: its variables, and the static flags `UNLOCKED_LATCH`, `NO_OOB_LATCH` and
-- `IS_TOPLEVEL`. A variable that is no text is not modelled.
pub record ProcessEnv : Type 0 where
  pub vars : Text → Option Text
  pub unlocked_latch : Bool
  pub no_oob_latch : Bool
  pub is_toplevel : Bool

unfoldable pub set_var : Text → Text → ProcessEnv → ProcessEnv
unfolding text_eq
set_var name value p = record p { vars = λ n. if text_eq n name then some value else p.vars n }

-- `parse` of a signed number, whose absolute value is below `bound`, or is `bound` behind a minus.
unfoldable pub parse_signed : ℕ → Text → Option ℤ
unfolding parse_digits
parse_signed bound [] = none
parse_signed bound (c ∷ s) =
    if c == b'-'
    then elim (parse_digits s) [
      | none ↦ none
      | some n ↦
          if n == 0 then some (pos 0) else if leb n bound then some (negsuc (n - 1)) else none
    ]
    else elim (parse_digits (if c == b'+' then s else c ∷ s)) [
      | none ↦ none
      | some n ↦ if ltb n bound then some (pos n) else none
    ]

unfoldable pub atoi : Text → ℤ
unfolding parse_signed
atoi s = elim (parse_signed (2 ^ 31) s) [ none ↦ pos 0 | some n ↦ n ]

module _ (p : ProcessEnv) where
  -- `env::var(name).unwrap_or_default()`
  abbrev pub var_or_empty : Text → Text
  var_or_empty name = text_or [] (p.vars name)

  unfoldable pub get_bool : Text → Bool
  unfolding is_empty
  get_bool name = not (is_empty (var_or_empty name))

  unfoldable pub from_env : Env
  unfolding get_bool atoi parse_signed trim_end_by
  from_env = record {
    base =
        trim_end_by (λ c. c == b'/') (text_or (codes "NOT_DEFINED") (p.vars (codes "REDO_BASE")));
    pwd = var_or_empty (codes "REDO_PWD");
    target = var_or_empty (codes "REDO_TARGET");
    depth = var_or_empty (codes "REDO_DEPTH");
    debug = atoi (var_or_empty (codes "REDO_DEBUG"));
    debug_locks = get_bool (codes "REDO_DEBUG_LOCKS");
    debug_pids = get_bool (codes "REDO_DEBUG_PIDS");
    locks_broken = get_bool (codes "REDO_LOCKS_BROKEN");
    verbose = atoi (var_or_empty (codes "REDO_VERBOSE"));
    xtrace = atoi (var_or_empty (codes "REDO_XTRACE"));
    keep_going = get_bool (codes "REDO_KEEP_GOING");
    log = atoi (text_or (codes "1") (p.vars (codes "REDO_LOG")));
    log_inode = var_or_empty (codes "REDO_LOG_INODE");
    color = atoi (var_or_empty (codes "REDO_COLOR"));
    pretty = atoi (var_or_empty (codes "REDO_PRETTY"));
    shuffle = get_bool (codes "REDO_SHUFFLE");
    startdir = var_or_empty (codes "REDO_STARTDIR");
    runid = elim (p.vars (codes "REDO_RUNID")) [ none ↦ none | some s ↦ parse_signed (2 ^ 63) s ];
    unlocked = get_bool (codes "REDO_UNLOCKED");
    no_oob = get_bool (codes "REDO_NO_OOB");
    strict = get_bool (codes "REDO_STRICT");
    strict_fail = get_bool (codes "REDO_STRICT_FAIL");
  }

  -- The settings with what was remembered.
  unfoldable pub v : Env
  v = record from_env {
    unlocked = from_env.unlocked || p.unlocked_latch;
    no_oob = from_env.no_oob || p.no_oob_latch;
  }

  -- `Env::inherit`
  unfoldable pub inherited : Result Env
  inherited = if is_some (p.vars (codes "REDO")) then ok from_env else err not_in_do

  unfoldable pub latch : Env → ProcessEnv
  latch e = record p {
    unlocked_latch = e.unlocked || p.unlocked_latch;
    no_oob_latch = e.no_oob || p.no_oob_latch;
  }

-- `inherit`: the flags are remembered, and are not handed on to subprocesses.
unfoldable pub inherit : ProcessEnv → Result ProcessEnv
unfolding set_var latch inherited
inherit p = elim (inherited p) [
  | err e ↦ err e
  | ok e ↦ ok (set_var (codes "REDO_NO_OOB") [] (set_var (codes "REDO_UNLOCKED") [] (latch p e)))
]

unfoldable pub default_redo : ProcessEnv → ProcessEnv
unfolding set_var
default_redo p =
    if is_some (p.vars (codes "REDO"))
    then p
    else set_var (codes "REDO") (codes "NOT_DEFINED") (record p { is_toplevel = true })

unfoldable pub default_base : ProcessEnv → ProcessEnv
unfolding set_var
default_base p =
    if is_some (p.vars (codes "REDO_BASE"))
    then p
    else set_var (codes "REDO_BASE") (codes "NOT_DEFINED") p

unfoldable pub init_no_state : ProcessEnv → Result ProcessEnv
unfolding default_redo default_base inherit
init_no_state p = inherit (default_base (default_redo p))

unfoldable pub mark_locks_broken : ProcessEnv → Result ProcessEnv
unfolding set_var inherit
mark_locks_broken p =
    inherit
      (set_var (codes "REDO_LOG") (codes "0") (set_var (codes "REDO_LOCKS_BROKEN") (codes "1") p))
