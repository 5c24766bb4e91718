-- ===== src/Commands/Target/Stamped.antt =====
-- The record of a target after redo-stamp, as build_one reads it in the same run.
use redo.Base.{
  ℕ, ◌≡◌, refl, sym, ap, ◌∙◌, ◌||◌, Bool, Bool-cases, inl, inr, true, false, Text, text_eq,
  text_eq_iff, none, some, arith, ok, Result, Option, if◌then◌else◌,
}
use redo.Base.Steps.{and_then, answer}
use redo.Store.Rows.{FileRow, File, always, save_row, from_row, same_stamp, reached}
use redo.Store.Tables.{Db, row_by_id, update_row}
use redo.Store.Transactions.{State}
use redo.Store.Files
use redo.Store.Files.{World}
use redo.Builder.Build.{Os, new_record}
use redo.Builder.Build.Laws.{row_by_id-update_row, commit-write}
use redo.Commands.Target.{done, stamped_record, stamp_target}

reached_self : (r : ℕ) → reached (some r) (some r) ≡ true
reached_self r = ground arith

or_true : (b : Bool) → b || true ≡ true
or_true true = refl
or_true false = refl

same_stamp-known : (o : Option Text) (t : Text) → same_stamp o t ≡ true → o ≡ some t
unfolding same_stamp
same_stamp-known none t h = cc
same_stamp-known (some s) t h = ap some ((text_eq_iff s t).0 h)

module _ (w : World) (f : File) (csum : Text) (row : FileRow) where
  -- The record that build_one makes of a target that was stamped in this run.
  abbrev pub built_record : File
  built_record =
      let same = same_stamp f.csum csum in
      record {
        id = row.id;
        name = row.name;
        is_generated = true;
        is_override = false;
        checked_runid = if same then w.runid else f.checked_runid;
        changed_runid = if same then f.changed_runid else w.runid;
        failed_runid = none;
        stamp = some (Files.stamp_now w (from_row w.runid row));
        csum = some csum;
      }

  -- The record as its row gives it back.
  abbrev stamped : File
  stamped = record (stamped_record w csum f) { id = row.id; name = row.name }

  from_row-stamped :
      text_eq row.name always ≡ false
      → from_row w.runid (save_row (stamped_record w csum f) row) ≡ stamped
  unfolding stamped_record from_row save_row Files.set_changed Files.set_checked
  from_row-stamped plain = elim (Bool-cases (same_stamp f.csum csum)) [
    | inl same ↦ rw (same, plain) refl
    | inr differs ↦ rw (differs, plain) refl
  ]

  this_run :
      (r : ℕ)
      → w.runid ≡ some r
      → reached stamped.checked_runid w.runid || reached stamped.changed_runid w.runid ≡ true
  unfolding stamped_record Files.set_changed Files.set_checked
  this_run r here = elim (Bool-cases (same_stamp f.csum csum)) [
    | inl same ↦ rw (same, here, reached_self r) refl
    | inr differs ↦ rw (differs, here, reached_self r) (or_true _)
  ]

  made_of : File
  made_of = record stamped {
    is_generated = true;
    is_override = false;
    stamp = some (Files.stamp_now w stamped);
  }

  made_of-built : made_of ≡ built_record
  unfolding made_of stamped_record Files.stamp_now Files.set_changed Files.set_checked from_row
  made_of-built = elim (Bool-cases (same_stamp f.csum csum)) [
    | inl same ↦ rw (same, same_stamp-known f.csum csum same) refl
    | inr differs ↦ rw differs refl
  ]

  new_record-stamped :
      (os : Os) (r : ℕ) → w.runid ≡ some r → new_record w os w stamped ≡ ok built_record
  unfolding new_record Files.is_checked Files.is_changed made_of
  new_record-stamped os r here = rw (this_run r here) (ap ok made_of-built)

  id-stamped_record : (stamped_record w csum f).id ≡ f.id
  unfolding stamped_record Files.set_changed Files.set_checked
  id-stamped_record = elim (Bool-cases (same_stamp f.csum csum)) [
    | inl same ↦ rw same refl
    | inr differs ↦ rw differs refl
  ]

  -- redo-stamp ends well, and the record that build_one reads again and makes of it in the
  -- same run holds the checksum and is good. If the checksum is the old one, the target is
  -- checked, and the run in which it changed stays; if not, the target changed in this run.
  -- The connection is sane, there is a run id, and the target has a row that is not that of
  -- //ALWAYS.
  pub stamp_target-Keeps :
      (os : Os) (s : State) (r : ℕ)
      → s.insane ≡ false
      → row_by_id f.id s.db.files ≡ some row
      → text_eq row.name always ≡ false
      → w.runid ≡ some r
      → ((stamp_target w csum f s).0 ≡ ok done)
        × (and_then
              (λ (g : File). answer (new_record w os w g))
              (Files.refresh w f (stamp_target w csum f s).1)
            ≡ (ok built_record, (stamp_target w csum f s).1))
  unfolding stamp_target Files.save Files.refresh Files.found
  stamp_target-Keeps os s r sane there plain here =
      let g = stamped_record w csum f in
      let t = (stamp_target w csum f s).1 in
      let c = commit-write (λ (d : Db). record d { files = update_row g d.files }) s sane in
      let saved =
        row_by_id-update_row g s.db.files row
          (ap (λ (i : ℕ). row_by_id i s.db.files) id-stamped_record ∙ there) in
      let read : row_by_id f.id t.db.files ≡ some (save_row g row) =
        ap (λ (d : Db). row_by_id f.id d.files) c.0
        ∙ ap (λ (i : ℕ). row_by_id i (update_row g s.db.files)) (sym id-stamped_record)
        ∙ saved in
      (
        refl,
        ap
              (λ (o : Option FileRow).
                and_then (λ (h : File). answer (new_record w os w h)) (Files.found w o t))
              read
            ∙ ap (λ (h : File). (new_record w os w h, t)) (from_row-stamped plain)
            ∙ ap (λ (o : Result File). (o, t)) (new_record-stamped os r here),
      )
