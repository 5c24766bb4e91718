-- ===== src/Deps/Plan.antt =====
-- `PlanCache` and `isdirty_readonly` of redo_core/src/deps.rs: the walk that writes nothing to the
-- database. The hash maps of the cache are association lists, newest entry first.
use redo.Base.{
  ℕ, zero, suc, Bool, true, false, List, [], ◌∷◌, ◌++◌, Text, Option, none, some, if◌then◌else◌,
  contains, length, ◌==◌, ok, err, cyclic, out_of_fuel,
}
use redo.Store.Rows.{File, same_stamp}
use redo.Store.Transactions.{State}
use redo.Store.Files
use redo.Store.Files.{World}
use redo.Deps.{DirtyResult, clean, must_build, Answer, Call, early, changed_on_disk, over_deps}

pub record PlanCache : Type 0 where
  pub checked : List ℕ
  pub stamp : List (ℕ × Text)
  pub deps : List (ℕ × List (ℕ × File))
  pub warned : List Text

-- `get` of a map from ids.
unfoldable pub lookup {ℓ} : {V : Type ℓ} → ℕ → List (ℕ × V) → Option V
lookup i [] = none
lookup i ((j, v) ∷ m) = if j == i then some v else lookup i m

-- `Default` of the cache.
abbrev pub empty_cache : PlanCache
empty_cache = record { checked = []; stamp = []; deps = []; warned = [] }

-- `take_checked_ids`
unfoldable pub take_checked_ids : PlanCache → List ℕ × PlanCache
take_checked_ids c = (c.checked, record c { checked = [] })

unfoldable pub set_checked : File → PlanCache → PlanCache
set_checked f c = record c { checked = f.id ∷ c.checked }

module _ (w : World) (s : State) where
  -- A stamp or a list of dependencies that the cache has, or the one that is read and put there.
  unfoldable pub stamp_or_read : File → PlanCache → Option Text → Text × PlanCache
  stamp_or_read f c (some t) = (t, c)
  stamp_or_read f c none =
      let t = Files.stamp_now w f in (t, record c { stamp = (f.id, t) ∷ c.stamp })

  unfoldable pub read_stamp_cached : File → PlanCache → Text × PlanCache
  unfolding stamp_or_read
  read_stamp_cached f c = stamp_or_read f c (lookup f.id c.stamp)

  unfoldable pub deps_or_read :
      File → PlanCache → Option (List (ℕ × File)) → List (ℕ × File) × PlanCache
  deps_or_read f c (some v) = (v, c)
  deps_or_read f c none = let v = Files.deps w f s in (v, record c { deps = (f.id, v) ∷ c.deps })

  unfoldable pub deps_cached : File → PlanCache → List (ℕ × File) × PlanCache
  unfolding deps_or_read
  deps_cached f c = deps_or_read f c (lookup f.id c.deps)

  -- What follows the loop of `isdirty_readonly`.
  unfoldable pub finish : File → List File → PlanCache → Answer × PlanCache
  unfolding set_checked
  finish f (g ∷ gs) c = (ok (must_build (g ∷ gs), f), c)
  finish f [] c = (
    ok (clean, f),
    set_checked f
        (record c { warned = if f.is_override then c.warned ++ (f.name ∷ []) else c.warned }),
  )

  -- The loop over the cached dependencies.
  unfoldable pub into_deps : Call PlanCache → File → List ℕ → PlanCache → Answer × PlanCache
  into_deps call f seen c =
      let (ds, c') = deps_cached f c in over_deps w call finish f (seen ++ (f.id ∷ [])) ds [] c'

  -- The comparison of the stamps, and what each answer leads to; `call` is the recursive call.
  unfoldable pub on_disk : Call PlanCache → File → List ℕ → PlanCache → Bool → Answer × PlanCache
  on_disk call f seen c true = into_deps call f seen c
  on_disk call f seen c false = (ok (changed_on_disk f, f), c)

  unfoldable pub look :
      Call PlanCache → File → List ℕ → PlanCache → Option DirtyResult → Answer × PlanCache
  look call f seen c (some answer) = (ok (answer, f), c)
  look call f seen c none =
      let (newstamp, c') = read_stamp_cached f c in
      on_disk call f seen c' (same_stamp f.stamp newstamp)

  unfoldable pub visit : Call PlanCache → File → ℕ → List ℕ → PlanCache → Bool → Answer × PlanCache
  visit call f max_changed seen c true = (err cyclic, c)
  visit call f max_changed seen c false =
      look call f seen c (early f max_changed (contains c.checked f.id))

  unfoldable pub isdirty_readonly : ℕ → Call PlanCache
  isdirty_readonly zero f max_changed seen c = (err out_of_fuel, c)
  isdirty_readonly (suc n) f max_changed seen c =
      visit (isdirty_readonly n) f max_changed seen c (contains seen f.id)

  -- `isdirty_readonly_default`, with fuel for each row of the table and one more.
  unfoldable pub isdirty_readonly_default : File → ℕ → PlanCache → Answer × PlanCache
  unfolding isdirty_readonly
  isdirty_readonly_default f max_changed c =
      isdirty_readonly (suc (length s.db.files)) f max_changed [] c
