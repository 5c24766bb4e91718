-- ===== src/Store/Files/Rebuild.antt =====
-- A build of a target records its dependencies anew: `zap_deps1` before the .do file runs,
-- `add_dep` for each dependency that it names, `zap_deps2` at its end.
use redo.Base.{
  ℕ, ◌≡◌, refl, ◌∙◌, ap, ==_iff, inl, inr, Bool, true, false, List, [], ◌∷◌, arith, Text, Option,
  none, some, ◌==◌, if◌then◌else◌, Bool-cases, Result, ok, err,
}
use redo.Store.Rows.{FileRow, File, DepRow}
use redo.Store.Tables.{Db, replace_dep, mark_deps, delete_marked}
use redo.Store.Tables.Laws.{
  dep_row, plain, live, live-mark_deps, live-replace_dep, other-mark_deps, other-replace_dep,
  other-delete_marked,
}
use redo.Store.Transactions.{State, write}
use redo.Store.Files.{World, by_name, found, replaced, add_dep, zap_deps1, zap_deps2}

module _ (w : World) (f : File) where
  -- The state after a list of dependencies was added; a call that fails is passed over.
  unfoldable pub add_all : List (ℕ × Text) → State → State
  add_all [] s = s
  add_all ((mode, dep) ∷ ds) s = add_all ds (add_dep w f mode dep s).1

  -- The mode of a source after a call of `add_dep`.
  abbrev pub after_add : ℕ → ℕ → Result File → Option ℕ → Option ℕ
  after_add source mode (err e) last = last
  after_add source mode (ok src) last = if src.id == source then some mode else last

  -- The mode with which a source was added last, if it was.
  unfoldable pub added : ℕ → List (ℕ × Text) → State → Option ℕ → Option ℕ
  added source [] s last = last
  added source ((mode, dep) ∷ ds) s last =
      added source ds (add_dep w f mode dep s).1
        (after_add source mode (by_name w dep true s).0 last)

  unfoldable pub rebuild : List (ℕ × Text) → State → State
  rebuild ds s = zap_deps2 w f (add_all ds (zap_deps1 w f s))

  -- The row that a mode stands for.
  abbrev pub row_of : ℕ → Option ℕ → Option DepRow
  row_of source none = none
  row_of source (some mode) = some (plain f.id source mode)

  -- What neither dependencies nor the sanity of the state shows.
  abbrev pub Same : State → State → Type 0
  Same s t = (t.db.deps ≡ s.db.deps) × (t.insane ≡ s.insane)

  Same-found : (o : Option FileRow) (s t : State) → Same s t → Same s (found w o t).1
  unfolding found
  Same-found none s t h = h
  Same-found (some r) s t h = h

  Same-if :
      {A : Type 0} (b : Bool) (s : State) (x y : Result A × State)
      → Same s x.1
      → Same s y.1
      → Same s (if b then x else y).1
  Same-if true s x y h k = h
  Same-if false s x y h k = k

  pub Same-write :
      (g : List FileRow → List FileRow) (s : State)
      → Same s (write (λ (db : Db). record db { files = g db.files }) s)
  unfolding write
  Same-write g s = ground arith

  -- `by_name` touches neither dependencies nor the sanity of the state.
  pub by_name_lem : (name : Text) (s : State) → Same s (by_name w name true s).1
  unfolding by_name
  by_name_lem name s =
      Same-if _ s _ _ (Same-found _ s _ (Same-write _ s)) (Same-found _ s s (refl, refl))

  -- What a sane state becomes in a write.
  write-sane :
      (g : Db → Db) (s : State)
      → s.insane ≡ false
      → ((write g s).insane ≡ false) × ((write g s).db ≡ g s.db)
  unfolding write
  write-sane g s h = ground (arith, h)

  -- The last mode of a source, from the state on.
  abbrev pub IsLast : ℕ → State → Option ℕ → Type 0
  IsLast source s last = live f.id source s.db.deps ≡ row_of source last

  replaced-IsLast :
      (source mode : ℕ) (r : Result File) (t : State) (last : Option ℕ)
      → t.insane ≡ false
      → IsLast source t last
      → ((replaced w f mode r t).1.insane ≡ false)
        × IsLast source (replaced w f mode r t).1 (after_add source mode r last)
  unfolding replaced
  replaced-IsLast source mode (err e) t last h k = (h, k)
  replaced-IsLast source mode (ok src) t last h k =
      let wrote =
        write-sane (λ (db : Db). record db { deps = replace_dep f.id mode src.id db.deps }) t h in
      (
        wrote.0,
        ap (λ (db : Db). live f.id source db.deps) wrote.1
            ∙ live-replace_dep f.id source src.id mode t.db.deps
            ∙ elim (Bool-cases (src.id == source)) [
              | inl same ↦
                  rw same (ap (λ (i : ℕ). some (plain f.id i mode)) ((==_iff src.id source).0 same))
              | inr other ↦ rw other k
            ],
      )

  add_dep-IsLast :
      (source mode : ℕ) (dep : Text) (s : State) (last : Option ℕ)
      → s.insane ≡ false
      → IsLast source s last
      → ((add_dep w f mode dep s).1.insane ≡ false)
        × IsLast source
            (add_dep w f mode dep s).1
            (after_add source mode (by_name w dep true s).0 last)
  unfolding add_dep
  add_dep-IsLast source mode dep s last h k =
      let same = by_name_lem dep s in
      replaced-IsLast source mode (by_name w dep true s).0 (by_name w dep true s).1 last
        (same.1 ∙ h) (ap (live f.id source) same.0 ∙ k)

  pub add_all-IsLast :
      (source : ℕ) (ds : List (ℕ × Text)) (s : State) (last : Option ℕ)
      → s.insane ≡ false
      → IsLast source s last
      → ((add_all ds s).insane ≡ false) × IsLast source (add_all ds s) (added source ds s last)
  unfolding add_all added
  add_all-IsLast source [] s last h k = (h, k)
  add_all-IsLast source ((mode, dep) ∷ ds) s last h k =
      let first = add_dep-IsLast source mode dep s last h k in
      add_all-IsLast source ds (add_dep w f mode dep s).1 _ first.0 first.1

  -- The rows of another target.
  Others : ℕ → ℕ → State → State → Type 0
  Others u source s t = dep_row u source t.db.deps ≡ dep_row u source s.db.deps

  write-Others :
      (u source : ℕ) (g : List DepRow → List DepRow) (s : State)
      → ((ds : List DepRow) → dep_row u source (g ds) ≡ dep_row u source ds)
      → Others u source s (write (λ (db : Db). record db { deps = g db.deps }) s)
  unfolding write Others
  write-Others u source g s h = ground (arith, h s.db.deps)

  replaced-Others :
      (u source mode : ℕ) (r : Result File) (t : State)
      → f.id == u ≡ false
      → Others u source t (replaced w f mode r t).1
  unfolding replaced Others
  replaced-Others u source mode (err e) t h = refl
  replaced-Others u source mode (ok src) t h =
      write-Others u source (replace_dep f.id mode src.id) t
        (λ ds. other-replace_dep f.id u source src.id mode ds h)

  add_all-Others :
      (u source : ℕ) (ds : List (ℕ × Text)) (s : State)
      → f.id == u ≡ false
      → Others u source s (add_all ds s)
  unfolding add_all add_dep Others
  add_all-Others u source [] s h = refl
  add_all-Others u source ((mode, dep) ∷ ds) s h =
      add_all-Others u source ds (add_dep w f mode dep s).1 h
      ∙ (replaced-Others u source mode (by_name w dep true s).0 (by_name w dep true s).1 h
          ∙ ap (dep_row u source) (by_name_lem dep s).0)

  -- In a sane state the recorded dependencies of a target after a rebuild are the ones that
  -- were added in it, each with the mode of its last addition and unmarked, whatever was
  -- recorded before; and those of other targets are as they were.
  pub rebuild_lem :
      (ds : List (ℕ × Text)) (s : State) (source u other : ℕ)
      → s.insane ≡ false
      → f.id == u ≡ false
      → (dep_row f.id source (rebuild ds s).db.deps
          ≡ row_of source (added source ds (zap_deps1 w f s) none))
        × (dep_row u other (rebuild ds s).db.deps ≡ dep_row u other s.db.deps)
  unfolding rebuild zap_deps1 zap_deps2 Others
  rebuild_lem ds s source u other h apart =
      let marked = write-sane (λ (db : Db). record db { deps = mark_deps f.id db.deps }) s h in
      let t = zap_deps1 w f s in
      let all = add_all-IsLast source ds t none marked.0 (
        ap (λ (db : Db). live f.id source db.deps) marked.1
        ∙ live-mark_deps f.id source s.db.deps) in
      let last =
        write-sane (λ (db : Db). record db { deps = delete_marked f.id db.deps }) (add_all ds t)
          all.0 in
      (
        ap (λ (db : Db). dep_row f.id source db.deps) last.1 ∙ all.1,
        write-Others u other (delete_marked f.id) (add_all ds t)
              (λ es. other-delete_marked f.id u other es apart)
            ∙ (add_all-Others u other ds t apart
                ∙ write-Others u other (mark_deps f.id) s
                    (λ es. other-mark_deps f.id u other es apart)),
      )
