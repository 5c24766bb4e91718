-- ===== src/Deps/Fresh/Decides.antt =====
-- `isdirty_readonly` decides `UpToDate`: its cache never changes an answer.
use redo.Base.{
  ℕ, zero, suc, ◌≤◌, ◌≡◌, refl, sym, ◌≢◌, ap, subst, Bool, true, false, List, [], ◌∷◌, ◌++◌, arith,
  Option, none, some, ◌==◌, contains, Result, ok, err, All, inl, inr, Bool-cases, if◌then◌else◌,
}
use redo.Paths.Components.{join}
use redo.Store.Rows.{File, is_some, unwrap_or, same_stamp}
use redo.Store.Transactions.{State}
use redo.Store.Stamps.{exists}
use redo.Store.Files
use redo.Store.Files.{World}
use redo.Deps.{
  DirtyResult, clean, dirty, must_build, Answer, Call, early, over_deps, dep_dirty, next_dep,
  result_of, newest, mode_c, mode_m,
}
use redo.Deps.Plan.{
  PlanCache, lookup, read_stamp_cached, stamp_or_read, deps_or_read, deps_cached, finish, into_deps,
  on_disk, look, visit, isdirty_readonly,
}
use redo.Deps.Fresh.{
  Fresh, fresh, FreshDeps, end, dep, FreshDep, absent, built, ignored, UpToDate, IsRow,
}
use redo.Deps.Fresh.Cache.{
  IsSound, stamp_or_read-IsSound, deps_or_read-IsSound, finish-IsSound, deps-Rows,
}

module _ (w : World) (s : State) where
  -- An answer that is right about a statement `P`, which holds when it is clean.
  abbrev pub Right : Type 0 → Result DirtyResult → Type 0
  Right P (err e) = Unit
  Right P (ok clean) = P
  Right P (ok dirty) = ¬ P
  Right P (ok (must_build v)) = (v ≢ []) × (¬ P)

  abbrev pub Answers : Type 0 → Answer × PlanCache → Type 0
  Answers P (r, c) = Right P (result_of r) × IsSound w s c

  -- What the first tests establish.
  abbrev Early : File → ℕ → Bool → Option DirtyResult → Type 0
  Early f mx checked none =
      (f.failed_runid ≡ none)
      × (is_some f.changed_runid ≡ true)
      × (unwrap_or 0 f.changed_runid ≤ mx)
  Early f mx checked (some clean) = (checked ≡ true) × (unwrap_or 0 f.changed_runid ≤ mx)
  Early f mx checked (some dirty) = ¬ UpToDate w s f mx
  Early f mx checked (some (must_build v)) = ⊥

  pub Fresh-facts :
      (f : File)
      → Fresh w s f
      → (f.failed_runid ≡ none)
        × (is_some f.changed_runid ≡ true)
        × (same_stamp f.stamp (Files.stamp_now w f) ≡ true)
        × FreshDeps w s f (Files.deps w f s)
  Fresh-facts f (fresh a b c d) = (a, b, c, d)

  early-Early :
      (f : File) (mx : ℕ) (checked : Bool) (o : Option DirtyResult)
      → early f mx checked ≡ o
      → Early f mx checked o
  unfolding early same_stamp
  early-Early f mx checked none e = ground arith
  early-Early f mx checked (some clean) e = ground arith
  early-Early f mx checked (some dirty) e = λ (recent, fr). ground (arith, Fresh-facts f fr)
  early-Early f mx checked (some (must_build v)) e = ground arith

  Right-iff : {P Q : Type 0} (r : Result DirtyResult) → (P → Q) → (Q → P) → Right P r → Right Q r
  Right-iff (err e) to from h = tt
  Right-iff (ok clean) to from h = to h
  Right-iff (ok dirty) to from h = λ q. h (from q)
  Right-iff (ok (must_build v)) to from h = (h.0, λ q. h.1 (from q))

  Right-changed :
      (P : Type 0) (f : File) (b : Bool)
      → ¬ P
      → Right P (ok (if b then must_build (f ∷ []) else dirty))
  Right-changed P f true h = ((λ e. cc), h)
  Right-changed P f false h = h

  not_absent :
      {f g : File} {mode : ℕ}
      → mode == mode_c ≡ true
      → exists w.fs (join w.base g.name) ≡ true
      → ¬ FreshDep w s f mode g
  not_absent m there (absent m' gone) = cc
  not_absent m there (built other m' recent fr) = cc
  not_absent m there (ignored other others) = cc

  of_built :
      {f g : File} {mode : ℕ}
      → mode == mode_c ≡ false
      → mode == mode_m ≡ true
      → FreshDep w s f mode g
      → UpToDate w s g (newest f)
  of_built other m (absent m' gone) = cc
  of_built other m (built other' m' recent fr) = (recent, fr)
  of_built other m (ignored other' others) = cc

  pub head_dep :
      {f g : File} {mode : ℕ} {ds : List (ℕ × File)}
      → FreshDeps w s f ((mode, g) ∷ ds)
      → FreshDep w s f mode g
  head_dep (dep h t) = h

  pub tail_deps :
      {f g : File} {mode : ℕ} {ds : List (ℕ × File)}
      → FreshDeps w s f ((mode, g) ∷ ds)
      → FreshDeps w s f ds
  tail_deps (dep h t) = t

  -- The right answers about one dependency, and about all that are left.
  dep_dirty-Right :
      (call : Call PlanCache) (f : File) (seen : List ℕ) (mode : ℕ) (g : File) (c : PlanCache)
      → IsSound w s c
      → Answers (UpToDate w s g (newest f)) (call g (newest f) seen c)
      → Right (FreshDep w s f mode g) (dep_dirty w call f seen mode g c).0
        × IsSound w s (dep_dirty w call f seen mode g c).1
  unfolding dep_dirty
  dep_dirty-Right call f seen mode g c v answers = elim (Bool-cases (mode == mode_c)) [
    | inl m ↦ elim (Bool-cases (exists w.fs (join w.base g.name))) [
      | inl there ↦ rw (m, there) ((not_absent m there), v)
      | inr gone ↦ rw (m, gone) (absent m gone, v)
    ]
    | inr other ↦ elim (Bool-cases (mode == mode_m)) [
      | inl m ↦
          rw (other, m)
            (
              Right-iff (result_of (call g (newest f) seen c).0) (λ u. built other m u.0 u.1)
                  (of_built other m) answers.0,
              answers.1,
            )
      | inr others ↦ rw (other, others) (ignored other others, v)
    ]
  ]

  append-ne-nil : (xs ys : List File) → ys ≢ [] → xs ++ ys ≢ []
  append-ne-nil [] ys h = h
  append-ne-nil (x ∷ xs) ys h = λ e. cc

  -- Where the loop stands: with nothing to build the dependencies that are left decide, and with
  -- something to build the file is not fresh.
  pub record Stands (f : File) (ds : List (ℕ × File)) (so_far : List File) : Type 0 where
    pub whole : so_far ≡ [] → FreshDeps w s f ds → Fresh w s f
    pub broken : so_far ≢ [] → ¬ Fresh w s f
    pub part : Fresh w s f → FreshDeps w s f ds

  next_dep-Answers :
      (more : List File → PlanCache → Answer × PlanCache) (f : File) (mode : ℕ) (g : File)
      (ds : List (ℕ × File)) (so_far : List File) (r : Result DirtyResult) (c : PlanCache)
      → ((v : List File) → Stands f ds v → Answers (Fresh w s f) (more v c))
      → Stands f ((mode, g) ∷ ds) so_far
      → Right (FreshDep w s f mode g) r
      → IsSound w s c
      → Answers (Fresh w s f) (next_dep more f so_far r c)
  unfolding next_dep
  next_dep-Answers more f mode g ds so_far (err e) c rest st right v = (tt, v)
  next_dep-Answers more f mode g ds so_far (ok clean) c rest st right v = rest so_far (record {
    whole = λ e fr. st.whole e (dep right fr);
    broken = st.broken;
    part = λ fr. tail_deps (st.part fr);
  })
  next_dep-Answers more f mode g ds so_far (ok dirty) c rest st right v =
      (Right-changed (Fresh w s f) f (is_some f.csum) (λ fr. right (head_dep (st.part fr))), v)
  next_dep-Answers more f mode g ds so_far (ok (must_build vs)) c rest st right v =
      rest (so_far ++ vs) (record {
        whole = λ e fr. absurd (append-ne-nil so_far vs right.0 e);
        broken = λ e fr. right.1 (head_dep (st.part fr));
        part = λ fr. tail_deps (st.part fr);
      })

  abbrev CallAnswers : Call PlanCache → List ℕ → Type 0
  CallAnswers call seen =
      (g : File) (mx : ℕ) (c : PlanCache)
      → IsRow w s g
      → IsSound w s c
      → Answers (UpToDate w s g mx) (call g mx seen c)

  over_deps-Answers :
      (call : Call PlanCache) (f : File) (seen : List ℕ) (ds : List (ℕ × File)) (so_far : List File)
      (c : PlanCache)
      → CallAnswers call seen
      → IsRow w s f
      → All (λ (_, g). IsRow w s g) ds
      → Stands f ds so_far
      → IsSound w s c
      → Answers (Fresh w s f) (over_deps w call (finish w s) f seen ds so_far c)
  unfolding over_deps finish
  over_deps-Answers call f seen [] [] c calls row rows st v =
      let fr = st.whole refl end in (fr, finish-IsSound w s f c row fr v)
  over_deps-Answers call f seen [] (g ∷ gs) c calls row rows st v =
      (((λ e. cc), st.broken (λ e. cc)), v)
  over_deps-Answers call f seen ((mode, g) ∷ ds) so_far c calls row rows st v =
      let d = dep_dirty-Right call f seen mode g c v (calls g (newest f) c rows.0 v) in
      next_dep-Answers (over_deps w call (finish w s) f seen ds) f mode g ds so_far _ _
        (λ vs st'. over_deps-Answers call f seen ds vs _ calls row rows.1 st' d.1) st d.0 d.1

  into_deps-Answers :
      (call : Call PlanCache) (f : File) (seen : List ℕ) (c : PlanCache)
      → CallAnswers call (seen ++ (f.id ∷ []))
      → IsRow w s f
      → (FreshDeps w s f (Files.deps w f s) → Fresh w s f)
      → IsSound w s c
      → Answers (Fresh w s f) (into_deps w s call f seen c)
  unfolding into_deps deps_cached
  into_deps-Answers call f seen c calls row whole v =
      let d = deps_or_read-IsSound w s f c (lookup f.id c.deps) refl row v in
      let c' = (deps_or_read w s f c (lookup f.id c.deps)).1 in
      subst
        (λ (ds : List (ℕ × File)).
          Answers (Fresh w s f) (over_deps w call (finish w s) f (seen ++ (f.id ∷ [])) ds [] c'))
        (sym d.0)
        (over_deps-Answers call f (seen ++ (f.id ∷ [])) (Files.deps w f s) [] c' calls row
          (deps-Rows w s f)
          (record {
            whole = λ _. whole;
            broken = λ h. absurd (h refl);
            part = λ fr. (Fresh-facts f fr).3;
          })
          d.1)

  on_disk-Answers :
      (call : Call PlanCache) (f : File) (seen : List ℕ) (c : PlanCache) (b : Bool)
      → CallAnswers call (seen ++ (f.id ∷ []))
      → IsRow w s f
      → f.failed_runid ≡ none
      → is_some f.changed_runid ≡ true
      → same_stamp f.stamp (Files.stamp_now w f) ≡ b
      → IsSound w s c
      → Answers (Fresh w s f) (on_disk w s call f seen c b)
  unfolding on_disk
  on_disk-Answers call f seen c true calls row ok_run changed same v =
      into_deps-Answers call f seen c calls row (λ ds. fresh ok_run changed same ds) v
  on_disk-Answers call f seen c false calls row ok_run changed differs v =
      (Right-changed (Fresh w s f) f (is_some f.csum) (λ fr. ground (arith, Fresh-facts f fr)), v)

  look-Answers :
      (call : Call PlanCache) (f : File) (mx : ℕ) (seen : List ℕ) (c : PlanCache)
      (o : Option DirtyResult)
      → CallAnswers call (seen ++ (f.id ∷ []))
      → IsRow w s f
      → Early f mx (contains c.checked f.id) o
      → IsSound w s c
      → Answers (UpToDate w s f mx) (look w s call f seen c o)
  unfolding look read_stamp_cached
  look-Answers call f mx seen c (some clean) calls row facts v =
      ((facts.1, v.checked f row facts.0), v)
  look-Answers call f mx seen c (some dirty) calls row facts v = (facts, v)
  look-Answers call f mx seen c (some (must_build vs)) calls row facts v = absurd facts
  look-Answers call f mx seen c none calls row facts v =
      let d = stamp_or_read-IsSound w s f c (lookup f.id c.stamp) refl row v in
      let (t, c') = stamp_or_read w s f c (lookup f.id c.stamp) in
      let (right, v') =
        on_disk-Answers call f seen c' (same_stamp f.stamp t) calls row facts.0 facts.1
          (ap (same_stamp f.stamp) (sym d.0)) d.1 in
      (
        Right-iff (result_of (on_disk w s call f seen c' (same_stamp f.stamp t)).0)
            (λ fr. (facts.2, fr)) (λ u. u.1) right,
        v',
      )

  pub isdirty_readonly-Answers :
      (n : ℕ) (f : File) (mx : ℕ) (seen : List ℕ) (c : PlanCache)
      → IsRow w s f
      → IsSound w s c
      → Answers (UpToDate w s f mx) (isdirty_readonly w s n f mx seen c)
  unfolding isdirty_readonly visit
  isdirty_readonly-Answers zero f mx seen c row v = (tt, v)
  isdirty_readonly-Answers (suc n) f mx seen c row v = elim (Bool-cases (contains seen f.id)) [
    | inl again ↦ rw again (tt, v)
    | inr new ↦ rw new (
        look-Answers (isdirty_readonly w s n) f mx seen c _
          (λ g mx' c' row' v'. isdirty_readonly-Answers n g mx' (seen ++ (f.id ∷ [])) c' row' v')
          row (early-Early f mx (contains c.checked f.id) _ refl) v)
  ]
