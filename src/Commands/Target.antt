-- ===== src/Commands/Target.antt =====
-- The programs that a .do file calls about its own target: bins/src/redo_always.rs,
-- bins/src/redo_ifcreate.rs and bins/src/redo_stamp.rs, from the look at the environment on. A
-- program that ends with an exit status leaves its transaction open.
pub mod Dirty
pub mod Stamped
use redo.Base.{
  ℕ, Bool, true, false, ◌||◌, List, [], ◌∷◌, Text, is_empty, none, some, if◌then◌else◌, ltb, Result,
  ok, err, no_target,
}
use redo.Base.Steps.{M, ◌>>=◌, ◌>>◌, answer, update}
use redo.Paths.Components.{join}
use redo.Env.{Env, ProcessEnv, inherit, v}
use redo.Store.Rows.{File, always, stamp_missing, same_stamp}
use redo.Store.Transactions.{State, commit}
use redo.Store.Stamps.{exists}
use redo.Store.Files
use redo.Store.Files.{World}

-- How a program ends that does not return: with an exit status.
pub data Exit : Type 0 where
  done : Exit
  exit : ℕ → Exit

unfoldable pub current_target_abs : Env → Result Text
unfolding is_empty join
current_target_abs e =
    if is_empty e.startdir || is_empty e.target
    then err no_target
    else ok (join (join e.startdir e.pwd) e.target)

module _ (w : World) where
  -- The record of the target whose .do file calls the program.
  unfoldable pub my_file : Env → M State File
  unfolding current_target_abs Files.by_name
  my_file e = do me ← answer (current_target_abs e); (λ s. Files.by_name w me true s)

  -- The changes of redo-always to the record of //ALWAYS.
  unfoldable pub always_changed : File → File
  unfolding Files.set_changed
  always_changed f =
      Files.set_changed w (record f { stamp = some stamp_missing; is_generated = false })

  unfoldable pub depend_on_always : File → M State Exit
  unfolding Files.add_dep Files.save Files.by_name always_changed
  depend_on_always f = do
    (λ s. Files.add_dep w f b'm' always s)
    update (Files.save w f)
    always_file ← (λ s. Files.by_name w always true s)
    update (λ s. commit (Files.save w (always_changed always_file) s))
    answer (ok done)

  unfoldable pub redo_always : ProcessEnv → M State Exit
  unfolding inherit v my_file depend_on_always
  redo_always p = do q ← answer (inherit p); f ← my_file (v q); depend_on_always f

  -- The loop over the arguments of redo-ifcreate.
  unfoldable pub absent_all : File → List Text → M State Exit
  unfolding is_empty exists Files.add_dep
  absent_all f [] = do update commit; answer (ok done)
  absent_all f (t ∷ ts) =
      let next = (do (λ s. Files.add_dep w f b'c' t s); absent_all f ts) in
      if is_empty t
      then answer (ok (exit 204))
      else if exists w.fs t
      then answer (ok (exit 1))
      else next

  unfoldable pub redo_ifcreate : ProcessEnv → List Text → M State Exit
  unfolding inherit v my_file absent_all
  redo_ifcreate p args = do q ← answer (inherit p); f ← my_file (v q); absent_all f args

  -- The changes of redo-stamp to the record of its target; `csum` is the digest of its input.
  unfoldable pub stamped_record : Text → File → File
  unfolding same_stamp Files.set_changed Files.set_checked
  stamped_record csum f =
      let g = record f { is_generated = true; is_override = false; failed_runid = none } in
      if same_stamp f.csum csum
      then Files.set_checked w g
      else record (Files.set_changed w g) { csum = some csum }

  unfoldable pub stamp_target : Text → File → M State Exit
  unfolding stamped_record Files.save
  stamp_target csum f = do
    update (λ s. commit (Files.save w (stamped_record csum f) s))
    answer (ok done)

  abbrev pub stamp_in : Text → Env → M State Exit
  stamp_in csum e =
      if is_empty e.target then answer (ok done) else (do f ← my_file e; stamp_target csum f)

  -- `arguments` is how many there are with the program's name, `tty` whether the input is a
  -- terminal.
  unfoldable pub redo_stamp : ℕ → Bool → Text → ProcessEnv → M State Exit
  unfolding inherit v my_file stamp_target
  redo_stamp arguments tty csum p =
      if ltb 1 arguments
      then answer (ok (exit 1))
      else if tty
      then answer (ok (exit 1))
      else (do q ← answer (inherit p); stamp_in csum (v q))
