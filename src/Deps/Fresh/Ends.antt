-- ===== src/Deps/Fresh/Ends.antt =====
-- The end of the planning walk: its fuel, its errors and its dependencies.
use mathlib.Core.Option.{none-ne-some}
use mathlib.Core.List.{Memᴰ}
use redo.Base.{
  ◌⊎◌, ==_iff, All, Error, ok, cyclic, ℕ, zero, suc, ◌<◌, ◌≡◌, refl, ◌∙◌, sym, ◌≢◌, ap, subst, Bool,
  true, false, List, [], ◌∷◌, ◌++◌, arith, Option, none, some, contains, out_of_fuel, length, err,
  inl, inr, Bool-cases, Option-cases, Text,
}
use redo.Store.Rows.{File}
use redo.Store.Tables.{row_by_id, ids}
use redo.Store.Transactions.{State}
use redo.Store.Files
use redo.Store.Files.{World}
use redo.Deps.{DirtyResult, Call, Answer, mode_m}
use redo.Deps.Fuel.{contains-row_by_id}
use redo.Deps.Plan.{
  PlanCache, lookup, read_stamp_cached, stamp_or_read, deps_or_read, deps_cached, finish,
  set_checked, into_deps, on_disk, look, visit, isdirty_readonly, isdirty_readonly_default,
}
use redo.Deps.Fresh.{UpToDate, as_file, IsRow, Needs, direct, later, IsCyclic}
use redo.Deps.Fresh.Cache.{IsSound, IsRow-unique, sound_entry, deps-Rows, Rows}
use redo.Deps.Fresh.Decides.{Answers, isdirty_readonly-Answers}
use redo.Deps.Fuel.{
  Errs, contains-append, Returns, over_deps-Returns, remaining, remaining-append-lt, remaining_nil,
  length-ids,
}

module _ (w : World) (s : State) where
  -- What the cache says of dependencies is so.
  abbrev HasDeps : PlanCache → Type 0
  HasDeps c =
      (f : File) (v : List (ℕ × File))
      → IsRow w s f
      → lookup f.id c.deps ≡ some v
      → v ≡ Files.deps w f s

  Known-IsRow : (f : File) → IsRow w s f → contains (ids s.db.files) f.id ≡ true
  Known-IsRow f row = elim (Option-cases (row_by_id f.id s.db.files)) [
    | inl e ↦ absurd (none-ne-some f (ap (as_file w) (sym e) ∙ row))
    | inr (r, e) ↦ (contains-row_by_id f.id s.db.files r e).1
  ]

  stamp_or_read-HasDeps :
      (f : File) (c : PlanCache) (o : Option Text) → HasDeps c → HasDeps (stamp_or_read w s f c o).1
  unfolding stamp_or_read
  stamp_or_read-HasDeps f c none h = h
  stamp_or_read-HasDeps f c (some t) h = h

  deps_or_read-HasDeps :
      (f : File) (c : PlanCache) (o : Option (List (ℕ × File)))
      → lookup f.id c.deps ≡ o
      → IsRow w s f
      → HasDeps c
      → ((deps_or_read w s f c o).0 ≡ Files.deps w f s) × HasDeps (deps_or_read w s f c o).1
  unfolding deps_or_read
  deps_or_read-HasDeps f c none e row h =
      (refl, sound_entry w s (λ g. Files.deps w g s) c.deps f h row)
  deps_or_read-HasDeps f c (some v) e row h = (h f v row e, h)

  -- The errors of a check of the file `root`.
  abbrev IsCycle : File → Error → Type 0
  IsCycle root e = (e ≡ cyclic) × IsCyclic w s root

  -- A file on the way from the root, and the files on the way to it.
  abbrev IsReached : File → File → Type 0
  IsReached root f = (root ≡ f) ⊎ Needs w s root f

  abbrev AreAbove : List ℕ → File → Type 0
  AreAbove seen f =
      (i : ℕ) → contains seen i ≡ true → (h : File) × IsRow w s h × (h.id ≡ i) × Needs w s h f

  IsReached-dep :
      (root f g : File) → IsReached root f → Memᴰ (mode_m, g) (Files.deps w f s) → IsReached root g
  IsReached-dep root f g (inl same) d = inr (rw same (direct d))
  IsReached-dep root f g (inr needs) d = inr (later needs d)

  AreAbove-dep :
      (seen : List ℕ) (f g : File)
      → IsRow w s f
      → AreAbove seen f
      → Memᴰ (mode_m, g) (Files.deps w f s)
      → AreAbove (seen ++ (f.id ∷ [])) g
  AreAbove-dep seen f g row above d i h = elim (Bool-cases (contains seen i)) [
    | inl old ↦ let (a, is, same, needs) = above i old in (a, is, same, later needs d)
    | inr new ↦
        let last : f.id ≡ i = ground (arith, contains-append seen (f.id ∷ []) i, h, new) in
        (f, row, last, direct d)
  ]

  -- Each dependency in a list of rows, with its place in the list.
  Rows-listed :
      (whole ds : List (ℕ × File))
      → ((d : ℕ × File) → Memᴰ d ds → Memᴰ d whole)
      → Rows w s ds
      → All (λ (m, g). IsRow w s g × Memᴰ (m, g) whole) ds
  Rows-listed whole [] sub rows = tt
  Rows-listed whole (d ∷ ds) sub rows =
      ((rows.0, sub d (Memᴰ.head refl)), Rows-listed whole ds (λ e m. sub e (Memᴰ.tail m)) rows.1)

  finish-Returns :
      (root f : File) (gs : List File) (c : PlanCache)
      → HasDeps c
      → Returns (IsCycle root) HasDeps (finish w s f gs c)
  unfolding finish set_checked
  finish-Returns root f [] c h = ((λ e no. absurd cc), h)
  finish-Returns root f (g ∷ gs) c h = ((λ e no. absurd cc), h)

  abbrev CallReturns : File → File → Call PlanCache → List ℕ → Type 0
  CallReturns root f call seen =
      (g : File) (mx : ℕ) (c : PlanCache)
      → IsRow w s g
      → Memᴰ (mode_m, g) (Files.deps w f s)
      → HasDeps c
      → Returns (IsCycle root) HasDeps (call g mx seen c)

  on_disk-Returns :
      (root : File) (call : Call PlanCache) (f : File) (seen : List ℕ) (c : PlanCache) (b : Bool)
      → CallReturns root f call (seen ++ (f.id ∷ []))
      → IsRow w s f
      → HasDeps c
      → Returns (IsCycle root) HasDeps (on_disk w s call f seen c b)
  unfolding on_disk into_deps deps_cached
  on_disk-Returns root call f seen c false calls row h = ((λ e no. absurd cc), h)
  on_disk-Returns root call f seen c true calls row h =
      let d = deps_or_read-HasDeps f c (lookup f.id c.deps) refl row h in
      let (ds, c') = deps_or_read w s f c (lookup f.id c.deps) in
      over_deps-Returns w (IsCycle root) HasDeps
        (λ m g. IsRow w s g × Memᴰ (m, g) (Files.deps w f s)) call (seen ++ (f.id ∷ []))
        (finish w s)
        (λ m g mx k q is_m k_ok.
          calls g mx k q.0
            (subst (λ (n : ℕ). Memᴰ (n, g) (Files.deps w f s)) ((==_iff m mode_m).0 is_m) q.1) k_ok)
        (finish-Returns root) f ds [] c'
        (subst Rows' (sym d.0)
          (Rows-listed (Files.deps w f s) (Files.deps w f s) (λ e m. m) (deps-Rows w s f)))
        d.1
    where
      Rows' : List (ℕ × File) → Type 0
      Rows' = All (λ (m, g). IsRow w s g × Memᴰ (m, g) (Files.deps w f s))

  look-Returns :
      (root : File) (call : Call PlanCache) (f : File) (seen : List ℕ) (c : PlanCache)
      (o : Option DirtyResult)
      → CallReturns root f call (seen ++ (f.id ∷ []))
      → IsRow w s f
      → HasDeps c
      → Returns (IsCycle root) HasDeps (look w s call f seen c o)
  unfolding look read_stamp_cached
  look-Returns root call f seen c (some answer) calls row h = ((λ e no. absurd cc), h)
  look-Returns root call f seen c none calls row h =
      on_disk-Returns root call f seen _ _ calls row
        (stamp_or_read-HasDeps f c (lookup f.id c.stamp) h)

  isdirty_readonly-Returns :
      (root : File) (n : ℕ) (f : File) (mx : ℕ) (seen : List ℕ) (c : PlanCache)
      → remaining seen (ids s.db.files) < n
      → IsRow w s f
      → IsReached root f
      → AreAbove seen f
      → HasDeps c
      → Returns (IsCycle root) HasDeps (isdirty_readonly w s n f mx seen c)
  unfolding isdirty_readonly visit
  isdirty_readonly-Returns root zero f mx seen c enough row way above h = elim enough [ ]
  isdirty_readonly-Returns root (suc n) f mx seen c enough row way above h =
      elim (Bool-cases (contains seen f.id)) [
        | inl again ↦
            let (a, is, same, needs) = above f.id again in
            let loop : Needs w s f f =
              subst (λ (b : File). Needs w s b f) (IsRow-unique w s a f is row same) needs in
            rw again ((λ e is_e. (sym cc, (f, way, loop))), h)
        | inr new ↦ rw new (
            look-Returns root (isdirty_readonly w s n) f seen c _
              (λ g mx' c' row' d h'.
                isdirty_readonly-Returns root n g mx' (seen ++ (f.id ∷ [])) c'
                  (omega
                    (arith, remaining-append-lt seen f.id (ids s.db.files) (Known-IsRow f row) new))
                  row' (IsReached-dep root f g way d) (AreAbove-dep seen f g row above d) h')
              row h)
      ]

  -- A check of `f` fails for a cycle only, and one that `f` runs into.
  abbrev pub OnlyCycles : File → Answer → Type 0
  OnlyCycles f (ok a) = Unit
  OnlyCycles f (err e) = (e ≡ cyclic) × IsCyclic w s f

  Errs-OnlyCycles : (f : File) (a : Answer) → Errs (IsCycle f) a → OnlyCycles f a
  Errs-OnlyCycles f (ok a) h = tt
  Errs-OnlyCycles f (err e) h = h e refl

  fueled : (f : File) (a : Answer) → Errs (IsCycle f) a → a ≢ err out_of_fuel
  fueled f a h = λ out. let c = (h out_of_fuel out).0 in absurd cc

  -- The planning check of a file as its row gives it, on a cache that holds only what is so,
  -- ends with a result or with a cycle error, and the latter only if the file, or one that it
  -- needs, needs itself by the recorded dependencies. A result is clean exactly if the file is
  -- up to date, a list of what must be built is not empty, and the cache still holds only what
  -- is so.
  pub isdirty_readonly_default-Answers :
      (f : File) (mx : ℕ) (c : PlanCache)
      → IsRow w s f
      → IsSound w s c
      → ((isdirty_readonly_default w s f mx c).0 ≢ err out_of_fuel)
        × Answers w s (UpToDate w s f mx) (isdirty_readonly_default w s f mx c)
        × OnlyCycles f (isdirty_readonly_default w s f mx c).0
  unfolding isdirty_readonly_default
  isdirty_readonly_default-Answers f mx c row v =
      let r =
        isdirty_readonly-Returns f (suc (length s.db.files)) f mx [] c
          (omega (arith, remaining_nil (ids s.db.files), length-ids s.db.files)) row (inl refl)
          (λ i no. absurd cc) v.dependencies in
      (
        fueled f (isdirty_readonly_default w s f mx c).0 r.0,
        isdirty_readonly-Answers w s (suc (length s.db.files)) f mx [] c row v,
        Errs-OnlyCycles f (isdirty_readonly_default w s f mx c).0 r.0,
      )
