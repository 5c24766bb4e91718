-- ===== src/Deps/Fuel.antt =====
-- The walk ends: the ids in the table that were not visited bound its depth.
use redo.Base.{
  ℕ, zero, suc, ◌+◌, ◌≤◌, ◌<◌, ◌≡◌, refl, ◌∙◌, ◌≢◌, ap, Bool, true, false, ◌||◌, List, [], ◌∷◌,
  ◌++◌, arith, Option, none, some, if◌then◌else◌, contains, ◌==◌, Result, Error, ok, err,
  out_of_fuel, length, All, subst, inl, inr, Bool-cases, Option-cases,
}
use redo.Store.Rows.{FileRow, File, DepRow, from_row, save_row}
use redo.Store.Tables.{ids, row_by_id, update_row, select_deps}
use redo.Store.Transactions.{State, write}
use redo.Store.Files
use redo.Store.Files.{World}
use redo.Deps.{
  DirtyResult, clean, dirty, must_build, Answer, Call, Walk, over_deps, dep_dirty, next_dep,
  differs, finish, isdirty, result_of, newest, mode_c, mode_m, on_disk, look, visit,
  isdirty_default,
}

-- How many of the ids were not visited.
abbrev pub remaining : List ℕ → List ℕ → ℕ
remaining seen [] = 0
remaining seen (i ∷ is) = (if contains seen i then 0 else 1) + remaining seen is

pub contains-append :
    (xs ys : List ℕ) (i : ℕ) → contains (xs ++ ys) i ≡ (contains xs i || contains ys i)
contains-append [] ys i = refl
contains-append (x ∷ xs) ys i = ground (arith, contains-append xs ys i)

remaining-append-le :
    (seen : List ℕ) (j : ℕ) (is : List ℕ) → remaining (seen ++ (j ∷ [])) is ≤ remaining seen is
remaining-append-le seen j [] = omega arith
remaining-append-le seen j (i ∷ is) =
    ground (arith, contains-append seen (j ∷ []) i, remaining-append-le seen j is)

pub remaining-append-lt :
    (seen : List ℕ) (j : ℕ) (is : List ℕ)
    → contains is j ≡ true
    → contains seen j ≡ false
    → remaining (seen ++ (j ∷ [])) is < remaining seen is
remaining-append-lt seen j [] h fresh = cc
remaining-append-lt seen j (i ∷ is) h fresh = ground (
  arith,
  contains-append seen (j ∷ []) i,
  remaining-append-le seen j is,
  remaining-append-lt seen j is,
)

pub remaining_nil : (is : List ℕ) → remaining [] is ≡ length is
remaining_nil [] = refl
remaining_nil (i ∷ is) = omega (arith, remaining_nil is)

-- Every dependency that a query finds is a row of the table.
pub contains-row_by_id :
    (i : ℕ) (rs : List FileRow) (r : FileRow)
    → row_by_id i rs ≡ some r
    → (r.id ≡ i) × (contains (ids rs) i ≡ true)
unfolding row_by_id
contains-row_by_id i [] r h = cc
contains-row_by_id i (q ∷ rs) r h = ground (arith, contains-row_by_id i rs r)

abbrev pub Known : List ℕ → ℕ × File → Type 0
Known is (m, f) = contains is f.id ≡ true

pub select_deps-Known :
    (runid : Option ℕ) (t : ℕ) (rs : List FileRow) (ds : List DepRow)
    → All (Known (ids rs)) (select_deps runid t rs ds)
unfolding select_deps from_row
select_deps-Known runid t rs [] = tt
select_deps-Known runid t rs (d ∷ ds) = elim (Option-cases (row_by_id d.source rs)) [
  | inl e ↦ rw (e, select_deps) (ground (arith, select_deps-Known runid t rs ds))
  | inr (r, e) ↦
      rw (e, select_deps)
        (ground (arith, contains-row_by_id d.source rs r, select_deps-Known runid t rs ds))
]

pub deps-Known :
    (w : World) (f : File) (s : State) → All (Known (ids s.db.files)) (Files.deps w f s)
unfolding Files.deps
deps-Known w f s = ground (arith, select_deps-Known w.runid f.id s.db.files s.db.deps)

-- Writing back a record keeps the ids.
ids-update_row : (f : File) (rs : List FileRow) → ids (update_row f rs) ≡ ids rs
unfolding update_row save_row
ids-update_row f [] = refl
ids-update_row f (r ∷ rs) = ground (arith, ids-update_row f rs)

abbrev pub ids_of : Walk → List ℕ
ids_of k = ids k.state.db.files

ids-save : (w : World) (f : File) (s : State) → ids (Files.save w f s).db.files ≡ ids s.db.files
unfolding Files.save write
ids-save w f s = ground (arith, ids-update_row f s.db.files)

ids-differs :
    (w : World) (pre : Option (List ℕ)) (f : File) (k : Walk)
    → (ids_of (differs w pre f k).1 ≡ ids_of k) × ((differs w pre f k).0 ≢ err out_of_fuel)
unfolding differs Files.refresh Files.found
ids-differs w pre f k =
    ground (arith, ids-save w (record f { is_generated = false; failed_runid = none }) k.state)

ids-finish :
    (w : World) (pre : Option (List ℕ)) (f : File) (gs : List File) (k : Walk)
    → (ids_of (finish w pre f gs k).1 ≡ ids_of k) × ((finish w pre f gs k).0 ≢ err out_of_fuel)
unfolding finish Files.set_checked_save
ids-finish w pre f [] k = ground (arith, ids-save w (record f { checked_runid = w.runid }) k.state)
ids-finish w pre f (g ∷ gs) k = ground arith

-- What holds of the error of a call, if it fails.
abbrev pub Errs : {A : Type 0} → (Error → Type 0) → Result A → Type 0
Errs E r = (e : Error) → r ≡ err e → E e

result_of-Errs : (E : Error → Type 0) (a : Answer) → Errs E a → Errs E (result_of a)
result_of-Errs E (ok r) h = λ e no. absurd cc
result_of-Errs E (err x) h = λ e same. h e cc

abbrev IsFueled : Error → Type 0
IsFueled e = e ≢ out_of_fuel

Errs-IsFueled : (r : Answer) → r ≢ err out_of_fuel → Errs IsFueled r
Errs-IsFueled r h = λ e is out. h (is ∙ ap err out)

-- An answer with an error as `E` says, if it is one, and with the state as `P` says.
abbrev pub Returns : {K : Type 0} → (Error → Type 0) → (K → Type 0) → Answer × K → Type 0
Returns E P (r, k) = Errs E r × P k

module _ {K : Type 0} (w : World) (E : Error → Type 0) (P : K → Type 0) (Q : ℕ → File → Type 0)
    (call : Call K) (seen : List ℕ) where
  dep_dirty-Returns :
      (f : File) (mode : ℕ) (f2 : File) (k : K)
      → P k
      → (mode == mode_m ≡ true → Returns E P (call f2 (newest f) seen k))
      → Errs E (dep_dirty w call f seen mode f2 k).0 × P (dep_dirty w call f seen mode f2 k).1
  unfolding dep_dirty
  dep_dirty-Returns f mode f2 k p called = elim (Bool-cases (mode == mode_c)) [
    | inl c ↦ rw c ((λ e no. absurd cc), p)
    | inr other ↦ elim (Bool-cases (mode == mode_m)) [
      | inl m ↦
          rw (other, m) (result_of-Errs E (call f2 (newest f) seen k).0 (called m).0, (called m).1)
      | inr ignored ↦ rw (other, ignored) ((λ e no. absurd cc), p)
    ]
  ]

  next_dep-Returns :
      (more : List File → K → Answer × K) (f : File) (gs : List File) (r : Result DirtyResult)
      (k : K)
      → ((v : List File) → Returns E P (more v k))
      → Errs E r
      → P k
      → Returns E P (next_dep more f gs r k)
  unfolding next_dep
  next_dep-Returns more f gs (err e) k h errs p = ((λ x same. errs x cc), p)
  next_dep-Returns more f gs (ok clean) k h errs p = h gs
  next_dep-Returns more f gs (ok dirty) k h errs p = ((λ e no. absurd cc), p)
  next_dep-Returns more f gs (ok (must_build v)) k h errs p = h (gs ++ v)

  -- If every call on a dependency and the end keep an invariant, with errors as `E` says, so does
  -- the loop.
  pub over_deps-Returns :
      (end : File → List File → K → Answer × K)
      → ((mode : ℕ) (f : File) (mx : ℕ) (k : K)
          → Q mode f
          → mode == mode_m ≡ true
          → P k
          → Returns E P (call f mx seen k))
      → ((f : File) (gs : List File) (k : K) → P k → Returns E P (end f gs k))
      → (f : File) (ds : List (ℕ × File)) (gs : List File) (k : K) → All (λ (m, g). Q m g) ds
      → P k
      → Returns E P (over_deps w call end f seen ds gs k)
  unfolding over_deps
  over_deps-Returns end keep last f [] gs k hs p = last f gs k p
  over_deps-Returns end keep last f ((mode, f2) ∷ ds) gs k hs p =
      let d = dep_dirty-Returns f mode f2 k p (λ m. keep mode f2 (newest f) k hs.0 m p) in
      next_dep-Returns (over_deps w call end f seen ds) f gs _ _
        (λ v. over_deps-Returns end keep last f ds v _ hs.1 d.1) d.0 d.1

-- Room for one more call on a row of the table that is not on the stack.
module _ (w : World) (preflight : Option (List ℕ)) (is : List ℕ) where
  abbrev Same : Walk → Type 0
  Same k = ids_of k ≡ is

  on_disk-Returns :
      (call : Call Walk) (f : File) (seen : List ℕ) (k : Walk) (b : Bool)
      → ((g : File) (mx : ℕ) (k' : Walk)
          → contains is g.id ≡ true
          → Same k'
          → Returns IsFueled Same (call g mx (seen ++ (f.id ∷ [])) k'))
      → Same k
      → Returns IsFueled Same (on_disk w preflight call f seen k b)
  unfolding on_disk
  on_disk-Returns call f seen k false keep same =
      (Errs-IsFueled _ (ids-differs w preflight f k).1, (ids-differs w preflight f k).0 ∙ same)
  on_disk-Returns call f seen k true keep same =
      over_deps-Returns w IsFueled Same (λ m g. contains is g.id ≡ true) call (seen ++ (f.id ∷ []))
        (finish w preflight) (λ m g mx k' known is_m. keep g mx k' known)
        (λ g gs k' same'. (
          Errs-IsFueled _ (ids-finish w preflight g gs k').1,
          (ids-finish w preflight g gs k').0 ∙ same',
        ))
        f (Files.deps w f k.state) [] k
        (subst (λ (js : List ℕ). All (Known js) (Files.deps w f k.state)) same
          (deps-Known w f k.state))
        same

  look-Returns :
      (call : Call Walk) (f : File) (seen : List ℕ) (k : Walk) (o : Option DirtyResult)
      → ((g : File) (mx : ℕ) (k' : Walk)
          → contains is g.id ≡ true
          → Same k'
          → Returns IsFueled Same (call g mx (seen ++ (f.id ∷ [])) k'))
      → Same k
      → Returns IsFueled Same (look w preflight call f seen k o)
  unfolding look
  look-Returns call f seen k (some answer) keep same = ((λ e no. absurd cc), same)
  look-Returns call f seen k none keep same = on_disk-Returns call f seen k _ keep same

  isdirty-Returns :
      (n : ℕ) (f : File) (mx : ℕ) (seen : List ℕ) (k : Walk)
      → contains is f.id ≡ true
      → remaining seen is < n
      → Same k
      → Returns IsFueled Same (isdirty w preflight n f mx seen k)
  unfolding isdirty visit
  isdirty-Returns zero f mx seen k known enough same = elim enough [ ]
  isdirty-Returns (suc n) f mx seen k known enough same = elim (Bool-cases (contains seen f.id)) [
    | inl again ↦ rw again (Errs-IsFueled _ (λ e. cc), same)
    | inr fresh ↦ rw fresh (
        look-Returns (isdirty w preflight n) f seen k _
          (λ g mx' k' kn sm.
            isdirty-Returns n g mx' (seen ++ (f.id ∷ [])) k' kn
              ((omega (arith, remaining-append-lt seen f.id is known fresh))) sm)
          same)
  ]

pub length-ids : (rs : List FileRow) → length (ids rs) ≡ length rs
length-ids [] = refl
length-ids (r ∷ rs) = ap suc (length-ids rs)

-- The check of a file that is in the table ends with an answer or an error of the code,
-- whatever the dependencies are, and leaves the rows of the table in place.
pub isdirty_default-Returns :
    (w : World) (preflight : Option (List ℕ)) (f : File) (mx : ℕ) (k : Walk)
    → contains (ids_of k) f.id ≡ true
    → ((isdirty_default w preflight f mx k).0 ≢ err out_of_fuel)
      × (ids_of (isdirty_default w preflight f mx k).1 ≡ ids_of k)
unfolding isdirty_default
isdirty_default-Returns w preflight f mx k known =
    let r =
      isdirty-Returns w preflight (ids_of k) (suc (length k.state.db.files)) f mx [] k known
        (omega (arith, remaining_nil (ids_of k), length-ids k.state.db.files)) refl in
    ((λ e. r.0 out_of_fuel e refl), r.1)
