-- ===== src/Tests/CycleRuns.antt =====
-- redo_core/src/cycles.rs
use redo.Base.{◌≡◌, refl, List, Text, codes, err, cyclic}
use redo.Cycles.{add, check}
use redo.Cycles.Laws.{check-add}

abbrev keep : List Text → List Text
keep ws = ws

added : add keep (codes "7::12") 305 ≡ codes "305:7:12"
unfolding add
added = refl

check-add_example : check (add keep (codes "7::12") 305) 12 ≡ err cyclic
unfolding check
check-add_example = check-add keep (λ w ws. refl) (codes "7::12") 305 12
