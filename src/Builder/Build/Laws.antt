-- ===== src/Builder/Build/Laws.antt =====
-- What `build_one` records of a run: the parts of `record_outcome`.
use redo.Base.{
  ℕ, ◌≡◌, refl, ◌∙◌, sym, ap, true, false, ◌||◌, List, [], ◌∷◌, Text, text_eq, text_eq_iff, Option,
  none, some, arith, inl, inr, Bool-cases, ok, Result-cases,
}
use redo.Store.Rows.{FileRow, File, DepRow, save_row, reached}
use redo.Store.Tables.{Db, row_by_id, update_row, delete_marked}
use redo.Store.Transactions.{State, write, commit, is_flushed}
use redo.Store.Stamps.{read_stamp}
use redo.Store.Files
use redo.Store.Files.{World, unwrap_text}
use redo.Builder.Build.{Machine, Os, now, new_record}

-- The row that an update writes.
pub row_by_id-update_row :
    (f : File) (rs : List FileRow) (r : FileRow)
    → row_by_id f.id rs ≡ some r
    → row_by_id f.id (update_row f rs) ≡ some (save_row f r)
unfolding row_by_id update_row save_row
row_by_id-update_row f [] r h = cc
row_by_id-update_row f (q ∷ rs) r h = ground (arith, h, row_by_id-update_row f rs r)

pub delete_marked_twice :
    (t : ℕ) (ds : List DepRow) → delete_marked t (delete_marked t ds) ≡ delete_marked t ds
unfolding delete_marked
delete_marked_twice t [] = refl
delete_marked_twice t (d ∷ ds) = ground (arith, delete_marked_twice t ds)

-- A write to a sane state, and a commit that follows it.
pub write-sane :
    (g : Db → Db) (s : State)
    → s.insane ≡ false
    → ((write g s).insane ≡ false) × ((write g s).db ≡ g s.db)
unfolding write
write-sane g s h = ground (arith, h)

pub commit-write :
    (g : Db → Db) (s : State)
    → s.insane ≡ false
    → ((commit (write g s)).db ≡ g s.db)
      × ((commit (write g s)).committed ≡ g s.db)
      × (is_flushed (commit (write g s)) ≡ true)
unfolding write commit is_flushed
commit-write g s h = ground (arith, h)

reached_now :
    (checked run : Option ℕ) (r : ℕ) → run ≡ some r → reached checked run || reached run run ≡ true
reached_now checked run r h = ground (arith, h)

-- What a record and its row have in common always.
abbrev pub key : File → ℕ × Text
key f = (f.id, f.name)

pub same_key : (f g : File) → g.id ≡ f.id → g.name ≡ f.name → key g ≡ key f
same_key f g i n = cc

-- A sane connection, with a row of an id and a name.
pub record IsReady (k : ℕ × Text) (s : State) : Type 0 where
  pub sane : s.insane ≡ false
  pub row : FileRow
  pub there : row_by_id k.0 s.db.files ≡ some row
  pub named : row.name ≡ k.1

module _ (w : World) (os : Os) where
  -- The stamp of a record is that of its file on disk.
  abbrev pub Stamped : File → Machine → Type 0
  Stamped g m = unwrap_text g.stamp ≡ Files.stamp_now (now w os m) g

  -- A generated file that was checked or changed in this run.
  pub record IsMade (g : File) : Type 0 where
    pub generated : g.is_generated ≡ true
    pub own : g.is_override ≡ false
    pub this_run : reached g.checked_runid w.runid || reached g.changed_runid w.runid ≡ true

  pub update_stamp-Stamped :
      (v : World) (f g : File)
      → Files.update_stamp v f false ≡ ok g
      → (unwrap_text g.stamp ≡ Files.stamp_now v f)
        × (g.id ≡ f.id)
        × (g.name ≡ f.name)
        × (g.is_generated ≡ f.is_generated)
  unfolding Files.update_stamp Files.set_changed
  update_stamp-Stamped v f g h =
      elim (Bool-cases (text_eq (unwrap_text f.stamp) (Files.stamp_now v f))) [
        | inl same ↦
            let e : f ≡ g = cc (rw (same, Files.update_stamp) at h) in
            rw (← e)
              ((text_eq_iff (unwrap_text f.stamp) (Files.stamp_now v f)).0 same, refl, refl, refl)
        | inr other ↦
            let e : Files.set_changed v (record f { stamp = some (Files.stamp_now v f) }) ≡ g =
              cc (rw (other, Files.update_stamp) at h) in
            rw (← e) (refl, refl, refl, refl)
      ]

  pub new_record-IsMade :
      (r : ℕ) (m : Machine) (f g : File)
      → w.runid ≡ some r
      → new_record w os (now w os m) f ≡ ok g
      → Stamped g m × IsMade g × (key g ≡ key f)
  unfolding new_record Files.set_changed Files.is_checked Files.is_changed Files.stamp_now
  new_record-IsMade r m f g run h =
      let made = record f { is_generated = true; is_override = false } in
      elim (Bool-cases (Files.is_checked (now w os m) made || Files.is_changed (now w os m) made)) [
        | inl kept ↦
            let e : record made { stamp = some (Files.stamp_now (now w os m) made) } ≡ g =
              cc (rw (kept, new_record) at h) in
            rw (← e) (refl, record { generated = refl; own = refl; this_run = kept }, refl)
        | inr fresh ↦
            elim (Result-cases
              (Files.update_stamp (now w os m) (record made { csum = none }) false)) [
                | inl (e, bad) ↦ cc (rw (fresh, bad, new_record) at h)
                | inr (u, good) ↦
                    let e : Files.set_changed (now w os m) u ≡ g =
                      cc (rw (fresh, good, new_record) at h) in
                    let facts =
                      update_stamp-Stamped (now w os m) (record made { csum = none }) u good in
                    rw (← e) (
                      facts.0 ∙ ap (λ (n : Text). read_stamp m.fs w.base n) (sym facts.2),
                      record {
                        generated = facts.3;
                        own = refl;
                        this_run = reached_now u.checked_runid w.runid r run;
                      },
                      same_key f (Files.set_changed (now w os m) u) facts.1 facts.2,
                    )
              ]
      ]
