-- ===== src/Tests/WalkRuns.antt =====
-- redo_core/src/deps.rs
use redo.Base.{◌≡◌, refl, ◌≢◌, none, some, [], ◌∷◌, ok, err, out_of_fuel, to_string}
use redo.Store.Rows.{from_row, same_stamp}
use redo.Store.Tables.{row_by_id}
use redo.Store.Stamps.{print_stamp}
use redo.Store.Transactions.{State}
use redo.Store.Files
use redo.Store.Files.{World}
use redo.Deps.{
  clean, isdirty_default, visit, over_deps, differs, finish, early, is_preflight_checked,
}
use redo.Deps.Fuel.{ids_of, isdirty_default-Returns}
use redo.Deps.Plan.{empty_cache, lookup, isdirty_readonly_default}
use redo.Deps.Fresh.{UpToDate}
use redo.Deps.Fresh.Cache.{IsSound}
use redo.Deps.Fresh.Decides.{Answers}
use redo.Deps.Fresh.Ends.{OnlyCycles, isdirty_readonly_default-Answers}
use redo.Tests.Sample.{disk, world, state, out, walk}

out_clean :
    (isdirty_default world none out 60 walk).0 ≡ ok (clean, record out { checked_runid = some 100 })
unfolding isdirty_default visit same_stamp over_deps differs finish early is_preflight_checked disk
    print_stamp to_string from_row Files.stamp_now Files.deps Files.is_checked
out_clean = refl

isdirty_default-Returns_example :
    ((isdirty_default world none out 60 walk).0 ≢ err out_of_fuel)
    × (ids_of (isdirty_default world none out 60 walk).1 ≡ 1 ∷ 2 ∷ 3 ∷ [])
unfolding from_row
isdirty_default-Returns_example = isdirty_default-Returns world none out 60 walk refl

pub empty_cache-IsSound : (w : World) (s : State) → IsSound w s empty_cache
unfolding lookup
empty_cache-IsSound w s = record {
  checked = λ f row h. cc;
  stamps = λ f t row e. cc;
  dependencies = λ f v row e. cc;
}

isdirty_readonly_default-Answers_example :
    ((isdirty_readonly_default world state out 60 empty_cache).0 ≢ err out_of_fuel)
    × Answers world state
        (UpToDate world state out 60)
        (isdirty_readonly_default world state out 60 empty_cache)
    × OnlyCycles world state out (isdirty_readonly_default world state out 60 empty_cache).0
unfolding from_row row_by_id
isdirty_readonly_default-Answers_example =
    isdirty_readonly_default-Answers world state out 60 empty_cache refl
      (empty_cache-IsSound world state)
