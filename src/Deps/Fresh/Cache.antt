-- ===== src/Deps/Fresh/Cache.antt =====
-- The cache of the planning walk holds only what is so of the rows of the table.
use mathlib.Core.Option.{some-injective}
use redo.Base.{
  ℕ, ◌≡◌, refl, ◌∙◌, sym, ◌||◌, not, ap, subst, true, List, [], ◌∷◌, arith, Option, none, some,
  ◌==◌, contains, All, inl, inr, Bool-cases, ==_iff, Option-cases, Text,
}
use redo.Store.Rows.{FileRow, DepRow, File, from_row}
use redo.Store.Tables.{row_by_id, select_deps}
use redo.Store.Transactions.{State}
use redo.Store.Files
use redo.Store.Files.{World}
use redo.Deps.Fuel.{contains-row_by_id}
use redo.Deps.Plan.{PlanCache, lookup, stamp_or_read, deps_or_read, finish, set_checked}
use redo.Deps.Fresh.{Fresh, file_of, as_file, IsRow}

module _ (w : World) (s : State) where
  -- The cache knows only what is so.
  pub record IsSound (c : PlanCache) : Type 0 where
    pub checked : (f : File) → IsRow w s f → contains c.checked f.id ≡ true → Fresh w s f
    pub stamps :
        (f : File) (t : Text) → IsRow w s f → lookup f.id c.stamp ≡ some t → t ≡ Files.stamp_now w f
    pub dependencies :
        (f : File) (v : List (ℕ × File))
        → IsRow w s f
        → lookup f.id c.deps ≡ some v
        → v ≡ Files.deps w f s

  pub IsRow-unique : (f g : File) → IsRow w s f → IsRow w s g → f.id ≡ g.id → f ≡ g
  IsRow-unique f g hf hg e = some-injective f g (sym hf ∙ ap (file_of w s) e ∙ hg)

  -- A new entry of a cache says what is so of its own file, and so of every file.
  pub sound_entry :
      {V : Type 0} (spec : File → V) (m : List (ℕ × V)) (f : File)
      → ((g : File) (v : V) → IsRow w s g → lookup g.id m ≡ some v → v ≡ spec g)
      → IsRow w s f
      → (g : File) (v : V) → IsRow w s g
      → lookup g.id ((f.id, spec f) ∷ m) ≡ some v
      → v ≡ spec g
  unfolding lookup
  sound_entry spec m f old row g v row' e = elim (Bool-cases (f.id == g.id)) [
    | inl same ↦ ground (arith, ap spec (IsRow-unique f g row row' ((==_iff f.id g.id).0 same)))
    | inr other ↦ old g v row' (rw other at e)
  ]

  pub stamp_or_read-IsSound :
      (f : File) (c : PlanCache) (o : Option Text)
      → lookup f.id c.stamp ≡ o
      → IsRow w s f
      → IsSound c
      → ((stamp_or_read w s f c o).0 ≡ Files.stamp_now w f) × IsSound (stamp_or_read w s f c o).1
  unfolding stamp_or_read
  stamp_or_read-IsSound f c (some t) e row v = (v.stamps f t row e, v)
  stamp_or_read-IsSound f c none e row v = (
    refl,
    record {
      checked = v.checked;
      stamps = sound_entry (Files.stamp_now w) c.stamp f v.stamps row;
      dependencies = v.dependencies;
    },
  )

  pub deps_or_read-IsSound :
      (f : File) (c : PlanCache) (o : Option (List (ℕ × File)))
      → lookup f.id c.deps ≡ o
      → IsRow w s f
      → IsSound c
      → ((deps_or_read w s f c o).0 ≡ Files.deps w f s) × IsSound (deps_or_read w s f c o).1
  unfolding deps_or_read
  deps_or_read-IsSound f c (some t) e row v = (v.dependencies f t row e, v)
  deps_or_read-IsSound f c none e row v = (
    refl,
    record {
      checked = v.checked;
      stamps = v.stamps;
      dependencies = sound_entry (λ g. Files.deps w g s) c.deps f v.dependencies row;
    },
  )

  pub finish-IsSound :
      (f : File) (c : PlanCache)
      → IsRow w s f
      → Fresh w s f
      → IsSound c
      → IsSound (finish w s f [] c).1
  unfolding finish set_checked
  finish-IsSound f c row fr v = record {
    checked = λ g row' h. elim (Bool-cases (g.id == f.id)) [
      | inl same ↦
          subst (Fresh w s) (IsRow-unique f g row row' (sym ((==_iff g.id f.id).0 same))) fr
      | inr other ↦ v.checked g row' (rw other at h)
    ];
    stamps = v.stamps;
    dependencies = v.dependencies;
  }

  IsRow-from_row :
      (i : ℕ) (r : FileRow) → row_by_id i s.db.files ≡ some r → IsRow w s (from_row w.runid r)
  unfolding from_row
  IsRow-from_row i r e =
      let same : r.id ≡ i = (contains-row_by_id i s.db.files r e).0 in
      subst (λ (j : ℕ). file_of w s j ≡ some (from_row w.runid r)) (sym same) (ap (as_file w) e)

  abbrev pub Rows : List (ℕ × File) → Type 0
  Rows = All (λ (_, g). IsRow w s g)

  -- Every dependency that a query gives is the record of its row.
  select_deps-Rows : (t : ℕ) (ds : List DepRow) → Rows (select_deps w.runid t s.db.files ds)
  unfolding select_deps
  select_deps-Rows t [] = tt
  select_deps-Rows t (d ∷ ds) = elim (Option-cases (row_by_id d.source s.db.files)) [
    | inl e ↦
        rw (e, select_deps)
          (elim (Bool-cases (d.target == t)) [
            | inl mine ↦ rw mine (select_deps-Rows t ds)
            | inr theirs ↦ rw theirs (select_deps-Rows t ds)
          ])
    | inr (r, e) ↦
        rw (e, select_deps)
          (elim (Bool-cases (d.target == t)) [
            | inl mine ↦ rw mine (IsRow-from_row d.source r e, select_deps-Rows t ds)
            | inr theirs ↦ rw theirs (select_deps-Rows t ds)
          ])
  ]

  pub deps-Rows : (f : File) → Rows (Files.deps w f s)
  unfolding Files.deps
  deps-Rows f = elim (Bool-cases (f.is_override || not f.is_generated)) [
    | inl source ↦ rw source tt
    | inr target ↦ rw target (select_deps-Rows f.id s.db.deps)
  ]
