-- ===== src/Builder/Build/Outcome.antt =====
-- Whatever comes of a run, `record_outcome` leaves a record of it in the database.
use mathlib.Core.Option.{some-injective}
use redo.Base.{
  ℕ, ◌≡◌, refl, ◌∙◌, sym, ap, subst, Bool, true, false, not, ◌&&◌, List, Text, Option, none, some,
  inl, inr, ltb, Bool-cases, ok, ℤ, Result-cases,
}
use redo.Base.Steps.{Ensures, and_then, and_then-Ensures}
use redo.Store.Rows.{FileRow, File, DepRow, from_row, save_row, is_some, same_stamp, stamp_missing}
use redo.Deps.Fuel.{contains-row_by_id}
use redo.Store.Tables.{Db, row_by_id, update_row, delete_marked}
use redo.Store.Transactions.{write, is_flushed}
use redo.Store.Stamps.{FileSystem, exists, read_stamp}
use redo.Store.Files
use redo.Store.Files.{World, unwrap_text}
use redo.Jobserver.Loops.{is_zero}
use redo.Builder.Build.{
  Machine, Os, Run, Steps, now, on_state, placed, keep_output, replace_target, refresh_if,
  new_record, strict_status, entries_of, check_trace, save_good, save_failed, save_outcome,
  settle_record, record_placed, record_outcome,
}
use redo.Builder.Trace.{evaluate_strict_readtrace}
use redo.Builder.Build.Laws.{
  key, same_key, row_by_id-update_row, delete_marked_twice, write-sane, commit-write, IsReady,
  Stamped, IsMade, update_stamp-Stamped, new_record-IsMade,
}

module _ (w : World) (os : Os) where
  -- The record that is in the database: its stamp is that of the file on disk. After a success it is
  -- of a generated file that was checked or changed in this run, otherwise of one that failed in it.
  pub record Recorded (k : ℕ × Text) (rv : ℤ) (m : Machine) : Type 0 where
    pub published : m.state.committed ≡ m.state.db
    pub flushed : is_flushed m.state ≡ true
    pub unmarked : delete_marked k.0 m.state.db.deps ≡ m.state.db.deps
    pub file : File
    pub row : FileRow
    pub saved : row_by_id k.0 m.state.db.files ≡ some (save_row file row)
    pub named : row.name ≡ k.1
    pub stamped : unwrap_text file.stamp ≡ read_stamp m.fs w.base k.1
    pub good : is_zero rv ≡ true → IsMade w os file
    pub bad : is_zero rv ≡ false → file.failed_runid ≡ w.runid

  save_good-Recorded :
      (rv : ℤ) (g : File) (m : Machine)
      → is_zero rv ≡ true
      → IsReady (key g) m.state
      → Stamped w os g m
      → IsMade w os g
      → delete_marked g.id m.state.db.deps ≡ m.state.db.deps
      → Recorded (key g) rv (save_good w os g m).1
  unfolding save_good Files.save Files.stamp_now
  save_good-Recorded rv g m zero ready st made un =
      let (reads, shows, clean) =
        commit-write (λ (d : Db). record d { files = update_row g d.files }) m.state ready.sane in
      record {
        published = shows ∙ sym reads;
        flushed = clean;
        unmarked = subst (λ (d : Db). delete_marked g.id d.deps ≡ d.deps) (sym reads) un;
        file = g;
        row = ready.row;
        saved =
            ap (λ (d : Db). row_by_id g.id d.files) reads
            ∙ row_by_id-update_row g m.state.db.files ready.row ready.there;
        named = ready.named;
        stamped = st;
        good = λ h. made;
        bad = λ h. cc;
      }

  set_failed-facts :
      (v : World) (f g : File)
      → Files.set_failed v f ≡ ok g
      → (unwrap_text g.stamp ≡ Files.stamp_now v f)
        × (g.id ≡ f.id)
        × (g.name ≡ f.name)
        × (g.failed_runid ≡ v.runid)
  unfolding Files.set_failed
  set_failed-facts v f g h = elim (Result-cases (Files.update_stamp v f false)) [
    | inl (e, bad) ↦ cc (rw (bad, Files.set_failed) at h)
    | inr (u, good) ↦
        let (st, i, n, gen) = update_stamp-Stamped w os v f u good in
        let e : record u {
          failed_runid = v.runid;
          is_generated = not (same_stamp u.stamp stamp_missing);
        }
            ≡ g =
          cc (rw (good, Files.set_failed) at h) in
        rw (← e) (st, i, n, refl)
  ]

  save_failed-Recorded :
      (rv : ℤ) (tmpname : Text) (f : File) (m : Machine)
      → is_zero rv ≡ false
      → IsReady (key f) m.state
      → Ensures (save_failed w os tmpname f m) (λ u m'. Recorded (key f) rv m')
  unfolding save_failed Files.save Files.zap_deps2 Files.stamp_now
  save_failed-Recorded rv tmpname f m nonzero ready =
      let m1 = record m { fs = os.remove_file tmpname m.fs } in
      elim (Result-cases (Files.set_failed (now w os m1) f)) [
        | inl (e, refused) ↦ rw refused tt
        | inr (g, marked) ↦
            let (st, i, n, failed) = set_failed-facts (now w os m1) f g marked in
            let (sane, zapped) =
              write-sane (λ (d : Db). record d { deps = delete_marked g.id d.deps }) m.state
                ready.sane in
            let (reads, shows, clean) =
              commit-write (λ (d : Db). record d { files = update_row g d.files })
                (write (λ (d : Db). record d { deps = delete_marked g.id d.deps }) m.state) sane in
            let deps_are = ap (λ (d : Db). d.deps) reads ∙ ap (λ (d : Db). d.deps) zapped in
            let files_are =
              ap (λ (d : Db). d.files) reads ∙ ap (λ (d : Db). update_row g d.files) zapped in
            rw marked record {
              published = shows ∙ sym reads;
              flushed = clean;
              unmarked =
                  subst (λ (ds : List DepRow). delete_marked f.id ds ≡ ds) (sym deps_are)
                    (subst
                      (λ (j : ℕ).
                        delete_marked j (delete_marked g.id m.state.db.deps)
                        ≡ delete_marked g.id m.state.db.deps)
                      i (delete_marked_twice g.id m.state.db.deps));
              file = g;
              row = ready.row;
              saved =
                  ap (row_by_id f.id) files_are
                  ∙ subst
                      (λ (j : ℕ).
                        row_by_id j (update_row g m.state.db.files) ≡ some (save_row g ready.row))
                      i
                      (row_by_id-update_row g m.state.db.files ready.row (
                        subst (λ (j : ℕ). row_by_id j m.state.db.files ≡ some ready.row) (sym i)
                          ready.there));
              named = ready.named;
              stamped = st;
              good = λ h. cc;
              bad = λ h. failed;
            }
      ]

  failed-Recorded :
      (tmpname : Text) (g : File) (rv : ℤ) (m : Machine)
      → is_zero rv ≡ false
      → IsReady (key g) m.state
      → Ensures
          (and_then (λ u m'. (ok rv, m')) (save_failed w os tmpname g m))
          (λ final m'. Recorded (key g) final m')
  failed-Recorded tmpname g rv m nonzero ready =
      and_then-Ensures (λ u m'. Recorded (key g) rv m') (λ final m'. Recorded (key g) final m')
        (save_failed w os tmpname g m) (λ u m'. (ok rv, m'))
        (save_failed-Recorded rv tmpname g m nonzero ready) (λ u m' h. h)

  save_outcome-Recorded :
      (tmpname : Text) (g : File) (rv : ℤ) (m : Machine)
      → IsReady (key g) m.state
      → Stamped w os g m
      → (is_zero rv ≡ true → IsMade w os g)
      → delete_marked g.id m.state.db.deps ≡ m.state.db.deps
      → Ensures (save_outcome w os tmpname g rv m) (λ final m'. Recorded (key g) final m')
  unfolding save_outcome
  save_outcome-Recorded tmpname g rv m ready st made un = elim (Bool-cases (is_zero rv)) [
    | inl zero ↦ rw zero (save_good-Recorded rv g m zero ready st (made zero) un)
    | inr nonzero ↦ rw nonzero (failed-Recorded tmpname g rv m nonzero ready)
  ]

  settle_record-Recorded :
      (strict strict_fail : Bool) (tmpname : Text) (trace : Option (List Text)) (rv : ℤ) (g : File)
      (m : Machine)
      → IsReady (key g) m.state
      → Stamped w os g m
      → IsMade w os g
      → Ensures
          (settle_record w os strict strict_fail tmpname trace rv g m)
          (λ final m'. Recorded (key g) final m')
  unfolding settle_record Files.zap_deps2 check_trace Files.stamp_now
  settle_record-Recorded strict strict_fail tmpname trace rv g m ready st made =
      let (sane, zapped) =
        write-sane (λ (d : Db). record d { deps = delete_marked g.id d.deps }) m.state ready.sane in
      let m1 = record m {
        state = write (λ (d : Db). record d { deps = delete_marked g.id d.deps }) m.state;
      } in
      let ready1 : IsReady (key g) m1.state = record {
        sane = sane;
        row = ready.row;
        there = ap (λ (d : Db). row_by_id g.id d.files) zapped ∙ ready.there;
        named = ready.named;
      } in
      let un : delete_marked g.id m1.state.db.deps ≡ m1.state.db.deps =
        subst (λ (d : Db). delete_marked g.id d.deps ≡ d.deps) (sym zapped)
          (delete_marked_twice g.id m.state.db.deps) in
      elim (Bool-cases strict) [
        | inl on ↦ rw on (
            save_outcome-Recorded tmpname g
              (strict_status w os strict_fail
                (evaluate_strict_readtrace w.base (Files.deps (now w os m1) g m1.state)
                  (entries_of w os trace))
                rv)
              m1 ready1 st (λ z. made) un)
        | inr off ↦ rw off (save_outcome-Recorded tmpname g rv m1 ready1 st (λ z. made) un)
      ]

  -- What the copy and the rename leave: the database as it was.
  abbrev SameState : Machine → ℤ → Machine → Type 0
  SameState m rv m' = m'.state ≡ m.state

  placed-SameState : (m : Machine) (o : Option FileSystem) → Ensures (placed w os m o) (SameState m)
  placed-SameState m none = refl
  placed-SameState m (some fs) = refl

  keep_output-SameState :
      (n : ℕ) (tmpname : Text) (m : Machine) → Ensures (keep_output w os n tmpname m) (SameState m)
  unfolding keep_output
  keep_output-SameState n tmpname m =
      elim (Bool-cases (ltb 0 n && not (is_some (m.fs.lstat tmpname)))) [
        | inl copies ↦ rw copies (placed-SameState m (os.copy_output tmpname m.fs))
        | inr not_needed ↦ rw not_needed refl
      ]

  replace_target-SameState :
      (tmpname target : Text) (rv : ℤ) (m : Machine)
      → Ensures (replace_target w os tmpname target rv m) (SameState m)
  unfolding replace_target
  replace_target-SameState tmpname target rv m =
      elim (Bool-cases (is_zero rv && exists m.fs tmpname)) [
        | inl there ↦ rw there (placed-SameState m (os.durable_rename tmpname target m.fs))
        | inr gone ↦ rw gone refl
      ]

  found-Same :
      (m : Machine) (f : File) (o : Option FileRow)
      → row_by_id f.id m.state.db.files ≡ o
      → IsReady (key f) m.state
      → Ensures (on_state w os (λ v s. Files.found v o s) m) (λ g m'. (m' ≡ m) × (key g ≡ key f))
  unfolding Files.found from_row
  found-Same m f none e ready = tt
  found-Same m f (some row) e ready =
      let same : ready.row ≡ row = some-injective ready.row row (sym ready.there ∙ e) in
      (
        refl,
        same_key f (from_row w.runid row) (contains-row_by_id f.id m.state.db.files row e).0
            (ap (λ (q : FileRow). q.name) (sym same) ∙ ready.named),
      )

  refresh_if-Same :
      (rv : ℤ) (f : File) (m : Machine)
      → IsReady (key f) m.state
      → Ensures (refresh_if w os rv f m) (λ g m'. (m' ≡ m) × (key g ≡ key f))
  unfolding refresh_if Files.refresh
  refresh_if-Same rv f m ready = elim (Bool-cases (is_zero rv)) [
    | inl zero ↦ rw zero (found-Same m f (row_by_id f.id m.state.db.files) refl ready)
    | inr other ↦ rw other (refl, refl)
  ]

  module _ (strict strict_fail : Bool) (tmpname : Text) (trace : Option (List Text)) (rv : ℤ) where
    abbrev settle_made : File → Steps ℤ
    settle_made fresh m =
        and_then (settle_record w os strict strict_fail tmpname trace rv)
          (new_record w os (now w os m) fresh, m)

    settle_made-Recorded :
        (r : ℕ) (f : File) (m : Machine)
        → w.runid ≡ some r
        → IsReady (key f) m.state
        → Ensures (settle_made f m) (λ final m'. Recorded (key f) final m')
    settle_made-Recorded r f m run ready = elim (Result-cases (new_record w os (now w os m) f)) [
      | inl (e, refused) ↦ rw refused tt
      | inr (g, good) ↦
          let (st, made, i) = new_record-IsMade w os r m f g run good in
          rw good (
            subst
              (λ (j : ℕ × Text).
                Ensures (settle_record w os strict strict_fail tmpname trace rv g m)
                  (λ final m'. Recorded j final m'))
              i
              (settle_record-Recorded strict strict_fail tmpname trace rv g m
                (subst (λ (j : ℕ × Text). IsReady j m.state) (sym i) ready) st made))
    ]

    record_placed-Recorded :
        (r : ℕ) (f : File) (m : Machine)
        → w.runid ≡ some r
        → IsReady (key f) m.state
        → Ensures
            (record_placed w os strict strict_fail tmpname trace f rv m)
            (λ final m'. Recorded (key f) final m')
    unfolding record_placed
    record_placed-Recorded r f m run ready =
        and_then-Ensures (λ g m'. (m' ≡ m) × (key g ≡ key f))
          (λ final m'. Recorded (key f) final m') (refresh_if w os rv f m) settle_made
          (refresh_if-Same rv f m ready)
          (λ g m' h.
            subst (λ (j : ℕ × Text). Ensures (settle_made g m') (λ final m''. Recorded j final m''))
              h.1
              (settle_made-Recorded r g m' run (
                subst (λ (n : Machine). IsReady (key g) n.state) (sym h.0)
                  (subst (λ (j : ℕ × Text). IsReady j m.state) (sym h.1) ready))))

  -- Whatever comes of the run of a .do file, the row of its target is saved and published, and
  -- its old dependencies are gone, unless an error ends the build. The stamp in the row is
  -- that of the file of the target's name on disk then. After status 0 the row is of a
  -- generated file that is no override and was checked or changed in this run, and after any
  -- other status it failed in this run. The connection is sane, the target has a row of its id
  -- and name, and there is a run id.
  pub record_outcome-Recorded :
      (strict strict_fail : Bool) (tmpname target : Text) (run : Run) (f : File) (rv : ℤ) (r : ℕ)
      (m : Machine)
      → w.runid ≡ some r
      → IsReady (key f) m.state
      → Ensures
          (record_outcome w os strict strict_fail tmpname target run f rv m)
          (λ final m'. Recorded (key f) final m')
  unfolding record_outcome save_outcome
  record_outcome-Recorded strict strict_fail tmpname target run f rv r m id ready =
      let place = record_placed w os strict strict_fail tmpname run.trace f in
      elim (Bool-cases (is_zero rv)) [
        | inl zero ↦ rw zero (
            and_then-Ensures (SameState m) (λ final m'. Recorded (key f) final m')
              (keep_output w os run.out_size tmpname m)
              (λ copied n. and_then place (replace_target w os tmpname target copied n))
              (keep_output-SameState run.out_size tmpname m)
              (λ copied n same.
                and_then-Ensures (SameState n) (λ final m'. Recorded (key f) final m')
                  (replace_target w os tmpname target copied n) place
                  (replace_target-SameState tmpname target copied n)
                  (λ there k same'.
                    record_placed-Recorded strict strict_fail tmpname run.trace there r f k id
                      (subst (IsReady (key f)) (sym (same' ∙ same)) ready))))
        | inr nonzero ↦ rw nonzero (failed-Recorded tmpname f rv m nonzero ready)
      ]
