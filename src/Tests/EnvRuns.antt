-- ===== src/Tests/EnvRuns.antt =====
-- redo_core/src/env.rs
use redo.Base.{
  ◌≡◌, refl, Bool, true, false, [], ◌∷◌, Text, codes, text_eq, Option, none, some, ok, length,
  split_on, if◌then◌else◌, pos,
}
use redo.Paths.Components.{slash}
use redo.Env.{ProcessEnv, set_var, from_env, v, inherit}
use redo.Env.Find.{commonprefix, dirs_of, find_base}
use redo.Env.Find.Laws.{IsCommon}
use redo.Env.Find.Nearest.{Nearest, find_base-Nearest}

unfoldable vars : Text → Option Text
unfolding text_eq
vars name =
    if text_eq name (codes "REDO")
    then some (codes "/bin/redo")
    else if text_eq name (codes "REDO_UNLOCKED")
    then some (codes "1")
    else if text_eq name (codes "REDO_BASE")
    then some (codes "/p//")
    else if text_eq name (codes "REDO_DEBUG")
    then some (codes "+3")
    else none

abbrev process : ProcessEnv
process = record { vars = vars; unlocked_latch = false; no_oob_latch = false; is_toplevel = false }

abbrev after_inherit : ProcessEnv
after_inherit =
    set_var (codes "REDO_NO_OOB") []
      (set_var (codes "REDO_UNLOCKED") [] (record process { unlocked_latch = true }))

settings :
    ((from_env process).base ≡ codes "/p")
    × ((from_env process).debug ≡ pos 3)
    × ((from_env process).log ≡ pos 1)
    × ((v process).unlocked ≡ true)
unfolding from_env vars v
settings = (refl, refl, refl, refl)

inherits : inherit process ≡ ok after_inherit
unfolding inherit vars from_env
inherits = refl

abbrev cwd : Text
cwd = codes "/a/bc"

unfoldable has : Text → Bool
unfolding text_eq
has path = text_eq path (codes "/a/.redo")

abbrev shared : Text
shared = commonprefix (dirs_of cwd (codes "../bd/x" ∷ []))

find_base-Nearest_example :
    IsCommon (dirs_of cwd (codes "../bd/x" ∷ [])) shared
    × Nearest has shared (length (split_on slash shared)) (find_base has cwd (codes "../bd/x" ∷ []))
find_base-Nearest_example = find_base-Nearest has cwd (codes "../bd/x" ∷ [])

-- Two directories that begin alike share a text that is no directory.
nearest_is :
    (shared ≡ codes "/a/b")
    × (find_base has cwd (codes "../bd/x" ∷ []) ≡ codes "/a")
    × (find_base (λ p. false) cwd (codes "../bd/x" ∷ []) ≡ codes "/a/b")
unfolding find_base has
nearest_is = (refl, refl, refl)
