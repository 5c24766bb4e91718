-- ===== src/Store/Tables/Laws.antt =====
-- The three statements that replace the recorded dependencies of a target: all rows are marked,
-- those that are found again are written anew, and those that are still marked are deleted.
use redo.Base.{
  ℕ, ◌≡◌, refl, ◌∙◌, ap, sym, subst, ==_iff, inl, inr, false, ◌&&◌, List, [], ◌∷◌, ◌++◌, arith,
  Option, none, some, ◌==◌, if◌then◌else◌, Bool-cases,
}
use redo.Store.Rows.{DepRow}
use redo.Store.Tables.{mark_deps, delete_marked, delete_key, replace_dep}

-- The row of a key.
unfoldable pub dep_row : ℕ → ℕ → List DepRow → Option DepRow
dep_row t s [] = none
dep_row t s (d ∷ ds) =
    let rest = dep_row t s ds in if d.target == t && d.source == s then some d else rest

abbrev pub plain : ℕ → ℕ → ℕ → DepRow
plain t s m = record { target = t; source = s; mode = m; delete_me = 0 }

pub dep_row-append :
    (t s t' s' m : ℕ) (ds : List DepRow)
    → dep_row t s ds ≡ none
    → dep_row t s (ds ++ (plain t' s' m ∷ []))
      ≡ (if t' == t && s' == s then some (plain t' s' m) else none)
unfolding dep_row
dep_row-append t s t' s' m [] h = refl
dep_row-append t s t' s' m (d ∷ ds) h = ground (arith, dep_row-append t s t' s' m ds)

dep_row-append_other :
    (t s t' s' m : ℕ) (ds : List DepRow)
    → t' == t && s' == s ≡ false
    → dep_row t s (ds ++ (plain t' s' m ∷ [])) ≡ dep_row t s ds
unfolding dep_row
dep_row-append_other t s t' s' m [] h = ground (arith, h)
dep_row-append_other t s t' s' m (d ∷ ds) h = ground (arith, dep_row-append_other t s t' s' m ds h)

delete_marked-append :
    (t s m : ℕ) (ds : List DepRow)
    → delete_marked t (ds ++ (plain t s m ∷ [])) ≡ delete_marked t ds ++ (plain t s m ∷ [])
unfolding delete_marked
delete_marked-append t s m [] = ground arith
delete_marked-append t s m (d ∷ ds) = ground (arith, delete_marked-append t s m ds)

-- The row of a key that `delete_marked` would leave.
abbrev pub live : ℕ → ℕ → List DepRow → Option DepRow
live t s ds = dep_row t s (delete_marked t ds)

pub live-mark_deps : (t s : ℕ) (ds : List DepRow) → live t s (mark_deps t ds) ≡ none
unfolding mark_deps delete_marked dep_row
live-mark_deps t s [] = refl
live-mark_deps t s (d ∷ ds) = ground (arith, live-mark_deps t s ds)

live-delete_key_same : (t s : ℕ) (ds : List DepRow) → live t s (delete_key t s ds) ≡ none
unfolding delete_key delete_marked dep_row
live-delete_key_same t s [] = refl
live-delete_key_same t s (d ∷ ds) = ground (arith, live-delete_key_same t s ds)

live-delete_key_other :
    (t s s' : ℕ) (ds : List DepRow) → s' == s ≡ false → live t s (delete_key t s' ds) ≡ live t s ds
unfolding delete_key delete_marked dep_row
live-delete_key_other t s s' [] h = refl
live-delete_key_other t s s' (d ∷ ds) h = ground (arith, live-delete_key_other t s s' ds h)

pub live-replace_dep :
    (t s s' m : ℕ) (ds : List DepRow)
    → live t s (replace_dep t m s' ds) ≡ (if s' == s then some (plain t s' m) else live t s ds)
unfolding replace_dep
live-replace_dep t s s' m ds =
    let rest = delete_marked t (delete_key t s' ds) in
    ap (dep_row t s) (delete_marked-append t s' m (delete_key t s' ds))
    ∙ elim (Bool-cases (s' == s)) [
      | inl same ↦
          let gone : dep_row t s rest ≡ none =
            subst (λ (x : ℕ). live t s (delete_key t x ds) ≡ none) (sym ((==_iff s' s).0 same))
              (live-delete_key_same t s ds) in
          ground (arith, dep_row-append t s t s' m rest gone, same)
      | inr other ↦ ground (
        arith,
        dep_row-append_other t s t s' m rest,
        live-delete_key_other t s s' ds other,
        other,
      )
    ]

-- The rows of other targets stay.
pub other-mark_deps :
    (t u s : ℕ) (ds : List DepRow) → t == u ≡ false → dep_row u s (mark_deps t ds) ≡ dep_row u s ds
unfolding mark_deps dep_row
other-mark_deps t u s [] h = refl
other-mark_deps t u s (d ∷ ds) h = ground (arith, other-mark_deps t u s ds h)

pub other-delete_marked :
    (t u s : ℕ) (ds : List DepRow)
    → t == u ≡ false
    → dep_row u s (delete_marked t ds) ≡ dep_row u s ds
unfolding delete_marked dep_row
other-delete_marked t u s [] h = refl
other-delete_marked t u s (d ∷ ds) h = ground (arith, other-delete_marked t u s ds h)

other-delete_key :
    (t u s s' : ℕ) (ds : List DepRow)
    → t == u ≡ false
    → dep_row u s (delete_key t s' ds) ≡ dep_row u s ds
unfolding delete_key dep_row
other-delete_key t u s s' [] h = refl
other-delete_key t u s s' (d ∷ ds) h = ground (arith, other-delete_key t u s s' ds h)

pub other-replace_dep :
    (t u s s' m : ℕ) (ds : List DepRow)
    → t == u ≡ false
    → dep_row u s (replace_dep t m s' ds) ≡ dep_row u s ds
unfolding replace_dep
other-replace_dep t u s s' m ds h =
    ground
      (arith, dep_row-append_other u s t s' m (delete_key t s' ds), other-delete_key t u s s' ds h)
