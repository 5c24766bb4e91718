-- ===== src/Commands/Target/Dirty.antt =====
-- What redo-always leaves in the tables, as the walk of a later run reads it.
use redo.Base.{
  ℕ, ◌≡◌, refl, subst, Bool-cases, inl, inr, text_eq_iff, ◌≢◌, ap, ◌∙◌, ◌<◌, true, false, List, [],
  ◌∷◌, text_eq, Text, none, some, arith, ok, Result, ◌==◌, if◌then◌else◌,
}
use redo.Store.Rows.{FileRow, File, DepRow, always, save_row, from_row}
use redo.Store.Tables.{Db, row_by_id, row_by_name, update_row, delete_key, replace_dep}
use redo.Store.Tables.Laws.{dep_row, dep_row-append, plain}
use redo.Store.Transactions.{State, write, commit}
use redo.Store.Files
use redo.Store.Files.{World}
use redo.Builder.Build.Laws.{commit-write, write-sane}
use redo.Deps.{DirtyResult, newest, mode_m, clean, result_of}
use redo.Deps.Plan.{PlanCache, isdirty_readonly_default}
use redo.Deps.Fresh.{Fresh, IsRow, UpToDate}
use redo.Deps.Fresh.Cache.{IsSound}
use redo.Deps.Fresh.Decides.{Right}
use redo.Deps.Fresh.Ends.{isdirty_readonly_default-Answers}
use redo.Deps.Fresh.Always.{always-stale}
use redo.Commands.Target.{done, always_changed, depend_on_always}

dep_row-delete_key : (t s : ℕ) (ds : List DepRow) → dep_row t s (delete_key t s ds) ≡ none
unfolding dep_row delete_key
dep_row-delete_key t s [] = refl
dep_row-delete_key t s (d ∷ ds) = ground (arith, dep_row-delete_key t s ds)

dep_row-replace_dep :
    (t s m : ℕ) (ds : List DepRow) → dep_row t s (replace_dep t m s ds) ≡ some (plain t s m)
unfolding replace_dep
dep_row-replace_dep t s m ds =
    ground (arith, dep_row-append t s t s m (delete_key t s ds) (dep_row-delete_key t s ds))

-- The row that an update of a record leaves of a row.
abbrev updated : File → FileRow → FileRow
updated f q = if q.id == f.id then save_row f q else q

row_by_name-update_row :
    (f : File) (n : Text) (rs : List FileRow) (q : FileRow)
    → row_by_name n rs ≡ some q
    → row_by_name n (update_row f rs) ≡ some (updated f q)
unfolding row_by_name update_row save_row
row_by_name-update_row f n [] q h = cc
row_by_name-update_row f n (r ∷ rs) q h = ground (arith, h, row_by_name-update_row f n rs q)

row_by_id-update_row_any :
    (f : File) (i : ℕ) (rs : List FileRow) (q : FileRow)
    → row_by_id i rs ≡ some q
    → row_by_id i (update_row f rs) ≡ some (updated f q)
unfolding row_by_id update_row save_row
row_by_id-update_row_any f i [] q h = cc
row_by_id-update_row_any f i (r ∷ rs) q h = ground (arith, h, row_by_id-update_row_any f i rs q)

named-text_eq :
    (q : FileRow) (n : Text) (rs : List FileRow)
    → row_by_name n rs ≡ some q
    → text_eq q.name n ≡ true
unfolding row_by_name
named-text_eq q n [] h = cc
named-text_eq q n (r ∷ rs) h = ground (arith, h, named-text_eq q n rs)

updated-name : (f : File) (q : FileRow) → ((updated f q).name ≡ q.name) × ((updated f q).id ≡ q.id)
unfolding save_row
updated-name f q = elim (Bool-cases (q.id == f.id)) [
  | inl same ↦ rw same (refl, refl)
  | inr other ↦ rw other (refl, refl)
]

not_clean :
    (w : World) (t : State) (g : File) (mx : ℕ) (o : Result DirtyResult)
    → ¬ Fresh w t g
    → Right w t (UpToDate w t g mx) o
    → o ≢ ok clean
not_clean w t g mx o stale right = λ e. stale (subst (Right w t (UpToDate w t g mx)) e right).1

module _ (w : World) where
  -- `by_name` of //ALWAYS, once its row is there.
  by_name-always :
      (t : State) (r : FileRow)
      → row_by_name always t.db.files ≡ some r
      → Files.by_name w always true t ≡ (ok (from_row w.runid r), t)
  unfolding Files.by_name Files.stored_name Files.found text_eq
  by_name-always t r h = rw (h, from_row) refl

  -- What redo-always leaves in the tables.
  depend_on_always-Leaves :
      (f : File) (s : State) (q : FileRow)
      → s.insane ≡ false
      → row_by_name always s.db.files ≡ some q
      → ((depend_on_always w f s).0 ≡ ok done)
        × ((depend_on_always w f s).1.db ≡ record {
          deps = replace_dep f.id mode_m q.id s.db.deps;
          files =
              update_row
                (always_changed w (from_row w.runid (updated f q)))
                (update_row f s.db.files);
        })
  unfolding depend_on_always Files.add_dep Files.replaced Files.save commit from_row
  depend_on_always-Leaves f s q sane named =
      let dep_of : Db → Db = λ (d : Db). record d { deps = replace_dep f.id mode_m q.id d.deps } in
      let file_of : Db → Db = λ (d : Db). record d { files = update_row f d.files } in
      let g = always_changed w (from_row w.runid (updated f q)) in
      let wa = write-sane dep_of s sane in
      let wb = write-sane file_of (write dep_of s) wa.0 in
      let reads : (write file_of (write dep_of s)).db ≡ file_of (dep_of s.db) =
        wb.1 ∙ ap file_of wa.1 in
      let named' : row_by_name always (write file_of (write dep_of s)).db.files
          ≡ some (updated f q) =
        ap (λ (d : Db). row_by_name always d.files) reads
        ∙ row_by_name-update_row f always s.db.files q named in
      let wc =
        commit-write (λ (d : Db). record d { files = update_row g d.files })
          (write file_of (write dep_of s)) wb.0 in
      rw
        (
          by_name-always s q named,
          by_name-always (write file_of (write dep_of s)) (updated f q) named',
        )
        (refl, wc.0 ∙ ap (λ (d : Db). record d { files = update_row g d.files }) reads)

  -- redo-always ends well, and the planning check of a later run never answers that its target
  -- is clean, unless the target was built or checked in that run. The target is generated and
  -- no override, the connection is sane, the row of //ALWAYS is there as a new database has it
  -- and its id names that row, and the cache of the check holds only what is so.
  pub depend_on_always-NotClean :
      (later : World) (f g : File) (s : State) (q : FileRow) (r mx : ℕ) (c : PlanCache)
      → s.insane ≡ false
      → row_by_name always s.db.files ≡ some q
      → row_by_id q.id s.db.files ≡ some q
      → later.runid ≡ some r
      → g.id ≡ f.id
      → IsRow later (depend_on_always w f s).1 g
      → g.is_generated ≡ true
      → g.is_override ≡ false
      → newest g < r
      → IsSound later (depend_on_always w f s).1 c
      → ((depend_on_always w f s).0 ≡ ok done)
        × (result_of (isdirty_readonly_default later (depend_on_always w f s).1 g mx c).0
            ≢ ok clean)
  depend_on_always-NotClean later f g s q r mx c sane named there here same row made own old sound =
      let t = (depend_on_always w f s).1 in
      let left = depend_on_always-Leaves f s q sane named in
      let a = always_changed w (from_row w.runid (updated f q)) in
      let p = updated a (updated f q) in
      let named_so = updated-name a (updated f q) in
      let id : p.id ≡ q.id = named_so.1 ∙ (updated-name f q).1 in
      let name : p.name ≡ always =
        named_so.0
        ∙ (updated-name f q).0
        ∙ (text_eq_iff q.name always).0 (named-text_eq q always s.db.files named) in
      let dependency : dep_row g.id p.id t.db.deps ≡ some (plain f.id q.id mode_m) =
        ap (λ (i : ℕ). dep_row i p.id t.db.deps) same
        ∙ ap (λ (i : ℕ). dep_row f.id i t.db.deps) id
        ∙ ap (λ (d : Db). dep_row f.id q.id d.deps) left.1
        ∙ dep_row-replace_dep f.id q.id mode_m s.db.deps in
      let row_of : row_by_id p.id t.db.files ≡ some p =
        ap (λ (i : ℕ). row_by_id i t.db.files) id
        ∙ ap (λ (d : Db). row_by_id q.id d.files) left.1
        ∙ row_by_id-update_row_any a q.id (update_row f s.db.files) (updated f q)
            (row_by_id-update_row_any f q.id s.db.files q there) in
      let stale : ¬ Fresh later t g =
        always-stale later t g r (plain f.id q.id mode_m) p here made own old name dependency refl
          row_of in
      let right = (isdirty_readonly_default-Answers later t g mx c row sound).1.0 in
      (left.0, not_clean later t g mx _ stale right)
