-- ===== src/Deps.antt =====
-- redo_core/src/deps.rs: is a target up to date? `isdirty` writes what it finds clean to the
-- database; `isdirty_readonly` keeps it in a cache and writes nothing.
-- Both recur along the dependencies, on fuel: `already_checked` never holds an id twice, so the
-- number of rows in the table bounds the depth.
pub mod Plan
pub mod Fuel
pub mod Fresh
use redo.Base.{
  ℕ, zero, suc, max, Bool, true, false, not, ◌&&◌, ◌||◌, List, [], ◌∷◌, ◌++◌, Text, text_eq, Option,
  none, some, if◌then◌else◌, ltb, contains, length, ◌==◌, Result, ok, err, Error, cyclic,
  out_of_fuel,
}
use redo.Paths.Components.{join}
use redo.Store.Rows.{File, stamp_missing, is_some, unwrap_or, same_stamp}
use redo.Store.Transactions.{State}
use redo.Store.Stamps.{exists}
use redo.Store.Files
use redo.Store.Files.{World}

pub data DirtyResult : Type 0 where
  clean dirty : DirtyResult
  must_build : List File → DirtyResult

-- What the walk answers: the result, with the caller's record as it was left.
abbrev pub Answer : Type 0
Answer = Result (DirtyResult × File)

abbrev pub mode_c : ℕ
mode_c = b'c'

abbrev pub mode_m : ℕ
mode_m = b'm'

-- The match at the end of the loop's body: stop with a result, or go on with what must be built.
pub data Verdict : Type 0 where
  stop : DirtyResult → Verdict
  go_on : List File → Verdict

unfoldable pub judge : File → DirtyResult → List File → Verdict
judge f clean so_far = go_on so_far
judge f dirty so_far = stop (if is_some f.csum then must_build (f ∷ []) else dirty)
judge f (must_build v) so_far = go_on (so_far ++ v)

-- The first tests of both walks, up to the look at the disk: an answer, or none.
unfoldable pub early : File → ℕ → Bool → Option DirtyResult
early f max_changed checked =
    if is_some f.failed_runid
    then some dirty
    else if not (is_some f.changed_runid)
    then some dirty
    else if ltb max_changed (unwrap_or 0 f.changed_runid)
    then some dirty
    else if checked
    then some clean
    else if not (is_some f.stamp)
    then some dirty
    else none

-- `must_build![f]` with a checksum, dirty without.
abbrev pub changed_on_disk : File → DirtyResult
changed_on_disk f = if is_some f.csum then must_build (f ∷ []) else dirty

-- `max(changed_runid.unwrap_or(0), checked_runid.unwrap_or(0))`
abbrev pub newest : File → ℕ
newest f = max (unwrap_or 0 f.changed_runid) (unwrap_or 0 f.checked_runid)

-- The state during `isdirty`: the database, and the names that `log_override` was called with.
pub record Walk : Type 0 where
  pub state : State
  pub warned : List Text

-- The preflight cache of the process: `install_preflight_checked` sets it once.
unfoldable pub install_preflight_checked : List ℕ → Option (List ℕ) → Option (List ℕ)
install_preflight_checked checked none = some checked
install_preflight_checked checked (some old) = some old

unfoldable pub is_preflight_checked : Option (List ℕ) → ℕ → Bool
is_preflight_checked none fid = false
is_preflight_checked (some s) fid = contains s fid

abbrev pub Call : Type 0 → Type 0
Call K = File → ℕ → List ℕ → K → Answer × K

-- The result alone of a recursive call, whose record is dropped.
abbrev pub result_of : Answer → Result DirtyResult
result_of (ok (d, g)) = ok d
result_of (err e) = err e

-- The match on the mode of a dependency, in either walk.
unfoldable pub dep_dirty :
    {K : Type 0} → World → Call K → File → List ℕ → ℕ → File → K → Result DirtyResult × K
unfolding exists join
dep_dirty w call f seen mode f2 k =
    if mode == mode_c
    then (ok (if exists w.fs (join w.base f2.name) then dirty else clean), k)
    else if mode == mode_m
    then (let (r, k') = call f2 (newest f) seen k in (result_of r, k'))
    else (ok clean, k)

-- What the loop does with a verdict and with the result of one dependency; `more` goes on.
unfoldable pub settle :
    {K : Type 0} → (List File → K → Answer × K) → File → Verdict → K → Answer × K
settle more f (stop answer) k = (ok (answer, f), k)
settle more f (go_on v) k = more v k

unfoldable pub next_dep :
    {K : Type 0}
    → (List File → K → Answer × K)
    → File
    → List File
    → Result DirtyResult
    → K
    → Answer × K
unfolding settle judge
next_dep more f so_far (err e) k = (err e, k)
next_dep more f so_far (ok d) k = settle more f (judge f d so_far) k

-- The loop over the dependencies; `finish` is what follows it.
unfoldable pub over_deps :
    {K : Type 0}
    → World
    → Call K
    → (File → List File → K → Answer × K)
    → File
    → List ℕ
    → List (ℕ × File)
    → List File
    → K
    → Answer × K
unfolding dep_dirty next_dep
over_deps w call finish f seen [] so_far k = finish f so_far k
over_deps w call finish f seen ((mode, f2) ∷ rest) so_far k =
    let (r, k') = dep_dirty w call f seen mode f2 k in
    next_dep (over_deps w call finish f seen rest) f so_far r k'

module _ (w : World) (preflight : Option (List ℕ)) where
  -- A stamp that is not the one on disk. A target that vanished becomes a source in the database.
  unfoldable pub differs : File → Walk → Answer × Walk
  unfolding Files.stamp_now text_eq Files.save Files.refresh
  differs f k =
      if text_eq (Files.stamp_now w f) stamp_missing && is_some f.stamp && f.is_generated
      then (let g = record f { is_generated = false; failed_runid = none } in
          let (r, s) = Files.refresh w g (Files.save w g k.state) in
          let k' = record k { state = s } in
          elim r [ err e ↦ (err e, k') | ok h ↦ (ok (changed_on_disk h, h), k') ])
      else (ok (changed_on_disk f, f), k)

  -- What follows the loop of `isdirty`.
  unfoldable pub finish : File → List File → Walk → Answer × Walk
  unfolding Files.set_checked_save
  finish f (g ∷ gs) k = (ok (must_build (g ∷ gs), f), k)
  finish f [] k =
      let (g, s) = Files.set_checked_save w f k.state in
      (
        ok (clean, g),
        record {
          state = s;
          warned = if f.is_override then k.warned ++ (f.name ∷ []) else k.warned;
        },
      )

  -- The comparison of the stamps, and what each answer leads to; `call` is the recursive call.
  unfoldable pub on_disk : Call Walk → File → List ℕ → Walk → Bool → Answer × Walk
  on_disk call f seen k true =
      over_deps w call finish f (seen ++ (f.id ∷ [])) (Files.deps w f k.state) [] k
  on_disk call f seen k false = differs f k

  unfoldable pub look : Call Walk → File → List ℕ → Walk → Option DirtyResult → Answer × Walk
  unfolding on_disk
  look call f seen k (some answer) = (ok (answer, f), k)
  look call f seen k none = on_disk call f seen k (same_stamp f.stamp (Files.stamp_now w f))

  unfoldable pub visit : Call Walk → File → ℕ → List ℕ → Walk → Bool → Answer × Walk
  unfolding look
  visit call f max_changed seen k true = (err cyclic, k)
  visit call f max_changed seen k false =
      look call f seen k
        (early f max_changed (Files.is_checked w f || is_preflight_checked preflight f.id))

  unfoldable pub isdirty : ℕ → Call Walk
  isdirty zero f max_changed seen k = (err out_of_fuel, k)
  isdirty (suc n) f max_changed seen k = visit (isdirty n) f max_changed seen k (contains seen f.id)

  -- `isdirty_default`, with fuel for each row of the table and one more.
  unfoldable pub isdirty_default : File → ℕ → Walk → Answer × Walk
  unfolding isdirty
  isdirty_default f max_changed k = isdirty (suc (length k.state.db.files)) f max_changed [] k
