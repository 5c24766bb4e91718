-- ===== src/Base/Errors.antt =====
-- `anyhow::Result` as a value: the errors that the modelled code distinguishes or raises.

use Prim.Native.Nat.{ℕ}
use mathlib.Core.Path.{◌≡◌, refl}
use mathlib.Core.Logic.{◌⊎◌, inl, inr}

pub data Error : Type 0 where
  -- `CyclicDependencyError`
  cyclic : Error
  -- a query that must find a row found none
  no_row : Error
  -- `{} does not exist`, of `update_stamp`
  missing : Error
  -- `Lock already created` and `not owned`
  lock_exists : Error
  lock_not_owned : Error
  -- `broken jobserver fds`, `unexpected EOF`, `token accounting mismatch on exit`
  broken_jobserver : Error
  token_mismatch : Error
  -- `state is not flushed`, `start() requires a token`
  not_flushed : Error
  no_token : Error
  -- a call of the operating system failed
  io : Error
  -- an address, an answer or a manifest of the remote cache that is refused
  bad_url : Error
  http_failed : ℕ → Error
  digest_mismatch : Error
  bad_manifest : Error
  empty_key : Error
  -- `must be run from inside a .do`, `missing REDO_STARTDIR/REDO_TARGET`
  not_in_do : Error
  no_target : Error
  -- `invalid redo pool directive`
  bad_pool : Error
  -- a list of targets that is not UTF-8, or an option without its file
  bad_text : Error
  no_path : Error
  -- the fuel of a recursion ran out, which a theorem excludes
  out_of_fuel : Error

pub data Result {ℓ} (A : Type ℓ) : Type ℓ where
  ok : A → Result A
  err : Error → Result A

infixl 5 ◌>>=◌
abbrev pub ◌>>=◌ {ℓ κ} : {A : Type ℓ} {B : Type κ} → Result A → (A → Result B) → Result B
ok a >>= f = f a
err e >>= f = err e

pub Result-cases {ℓ} :
    {A : Type ℓ} (r : Result A) → ((e : Error) × (r ≡ err e)) ⊎ ((a : A) × (r ≡ ok a))
Result-cases (err e) = inl (e, refl)
Result-cases (ok a) = inr (a, refl)
