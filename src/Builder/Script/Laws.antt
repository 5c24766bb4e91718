-- ===== src/Builder/Script/Laws.antt =====
-- The two searches for a .do file agree, and the one with dependencies records its way.
use redo.Base.{
  ℕ, ◌≡◌, refl, ◌∙◌, inl, inr, true, false, ap, List, [], ◌∷◌, Text, Option, some, if◌then◌else◌,
  Bool-cases, Result, Result-cases, ok, err,
}
use redo.Paths.DoFiles.{DoFile, possible_do_files, first_existing}
use redo.Store.Rows.{File}
use redo.Store.Tables.{update_row}
use redo.Store.Tables.Laws.{live}
use redo.Store.Transactions.{State}
use redo.Store.Stamps.{exists}
use redo.Store.Files.{World, by_name, add_dep, set_static, save}
use redo.Store.Files.Rebuild.{add_all-IsLast, row_of, added, add_all, by_name_lem, Same, Same-write}
use redo.Builder.Script.{
  Found, do_path, parts, parts_of_some, make_static, after_dep, use_do_file, or_next, pass_over,
  search_do, find_do_for_target, find_do_for_target_no_deps,
}

module _ (w : World) (sf : File) where
  -- The calls of `add_dep` in a search: mode c for what is not there, and mode m for the end.
  unfoldable pub asked : List DoFile → List (ℕ × Text)
  asked [] = []
  asked (c ∷ cs) =
      let rest = asked cs in
      if exists w.fs (do_path c) then (b'm', do_path c) ∷ [] else (b'c', do_path c) ∷ rest

  abbrev Answer : Type 0
  Answer = Option (Text × Text × Text × Text)

  -- A successful search that answers `want` has left the dependencies of a state.
  abbrev Leaves : Answer → State → Found → Type 0
  Leaves want t r = (o : Answer) → r.0 ≡ ok o → (o ≡ want) × (r.1.db.deps ≡ t.db.deps)

  save-Same : (g : File) (s : State) → Same w sf s (save w g s)
  unfolding save
  save-Same g s = Same-write w sf (update_row g) s

  make_static-Leaves :
      (c : DoFile) (r : Result File) (s : State) → Leaves (some (parts c)) s (make_static w c r s)
  unfolding make_static
  make_static-Leaves c (err e) s o h = cc
  make_static-Leaves c (ok dof) s o h = elim (Result-cases (set_static w dof)) [
    | inl (e, bad) ↦ cc (rw (bad, make_static) at h)
    | inr (g, good) ↦
        let answer = rw (good, make_static) at h in
        rw (good, make_static) (cc answer, (save-Same g s).0)
  ]

  after_dep-Leaves :
      (c : DoFile) (r : Result (Unit {0})) (s : State)
      → Leaves (some (parts c)) s (after_dep w c r s)
  unfolding after_dep
  after_dep-Leaves c (err e) s o h = cc
  after_dep-Leaves c (ok u) s o h =
      let later =
        make_static-Leaves c (by_name w (do_path c) true s).0 (by_name w (do_path c) true s).1 o
          h in
      (later.0, later.1 ∙ (by_name_lem w sf (do_path c) s).0)

  or_next-Leaves :
      (want : Answer) (t : State) (more : State → Found) (r : Result (Unit {0})) (s : State)
      → Leaves want t (more s)
      → Leaves want t (or_next w more r s)
  unfolding or_next
  or_next-Leaves want t more (err e) s k o h = cc
  or_next-Leaves want t more (ok u) s k o h = k o h

  search_do-Leaves :
      (cs : List DoFile) (s : State)
      → Leaves
          (parts_of_some w (first_existing w.fs cs))
          (add_all w sf (asked cs) s)
          (search_do w sf cs s)
  unfolding search_do first_existing add_all asked use_do_file pass_over
  search_do-Leaves [] s = λ o h. (cc, refl)
  search_do-Leaves (c ∷ cs) s = elim (Bool-cases (exists w.fs (do_path c))) [
    | inl there ↦
        rw (there, search_do)
          (after_dep-Leaves c (add_dep w sf b'm' (do_path c) s).0
            (add_dep w sf b'm' (do_path c) s).1)
    | inr gone ↦
        rw (gone, search_do)
          (or_next-Leaves _ (add_all w sf (asked cs) (add_dep w sf b'c' (do_path c) s).1)
            (search_do w sf cs) (add_dep w sf b'c' (do_path c) s).0
            (add_dep w sf b'c' (do_path c) s).1
            (search_do-Leaves cs (add_dep w sf b'c' (do_path c) s).1))
  ]

  -- A search that succeeds in a sane state finds the .do file that the search without
  -- dependencies finds. In the database the target then depends on each source with the mode
  -- of its last call: that the .do file is there for the one found, that it is absent for each
  -- candidate before it; and on other sources as it did.
  pub find_do_for_target_lem :
      (s : State) (o : Option (Text × Text × Text × Text)) (source : ℕ) (last : Option ℕ)
      → s.insane ≡ false
      → live sf.id source s.db.deps ≡ row_of w sf source last
      → (find_do_for_target w sf s).0 ≡ ok o
      → (o ≡ find_do_for_target_no_deps w sf)
        × (live sf.id source (find_do_for_target w sf s).1.db.deps
            ≡ row_of w sf source
                (added w sf source (asked (possible_do_files sf.name w.base)) s last))
  unfolding find_do_for_target find_do_for_target_no_deps
  find_do_for_target_lem s o source last sane before h =
      let candidates = possible_do_files sf.name w.base in
      let found = search_do-Leaves candidates s o h in
      let recorded = add_all-IsLast w sf source (asked candidates) s last sane before in
      (found.0, ap (live sf.id source) found.1 ∙ recorded.1)
