-- ===== src/Builder/Start/Keeps.antt =====
-- What `build_or_keep` leaves of the disk when it does not build.
use redo.Base.{
  Lacks, ◌≢◌, ◌||◌, Bool, ◌++◌, ◌∷◌, ap, arith, length, length-append, text_eq, text_eq_iff,
  join_with, to_string, ◌≡◌, refl, sym, subst, ◌∙◌, true, false, not, ◌&&◌, Text, Option, none,
  some, inl, inr, ◌⊎◌, Bool-cases, Result, ok, err, ℤ, Result-cases,
}
use redo.Base.Steps.{M, answer, and_then}
use redo.Store.Rows.{File, stamp_missing}
use redo.Store.Stamps.{
  dash, exists, FileSystem, Metadata, print_stamp, read_stamp, read_stamp_st, stamp_of,
  detect_override,
}
use redo.Store.Stamps.Laws.{detect_override-print_stamp}
use redo.Paths.Components.{join}
use redo.Store.Transactions.{commit}
use redo.Store.Files
use redo.Store.Files.{World}
use redo.Store.Locks.{Lock}
use redo.Builder.Build.{Machine, Os, Steps, now}
use redo.Builder.Start.{
  Setting, all_well, is_overridden, save_commit, unlock_target, make_override, keep_override,
  keep_static, build_or_keep,
}

-- The disk is as it was, whether a call failed or not; and what is answered fits.
abbrev pub Fits : {A : Type 0} → (A → Type 0) → Result A → Type 0
Fits P (ok a) = P a
Fits P (err e) = Unit

abbrev pub Untouched : {A : Type 0} → (A → Type 0) → Result A × Machine → Machine → Type 0
Untouched P r m = (r.1.fs ≡ m.fs) × Fits P r.0

and_then-Untouched :
    {A B : Type 0} (P : A → Type 0) (Q : B → Type 0) (r : Result A × Machine) (f : A → M Machine B)
    (m : Machine)
    → Untouched P r m
    → ((a : A) (t : Machine) → P a → Untouched Q (f a t) t)
    → Untouched Q (and_then f r) m
and_then-Untouched P Q (ok a, t) f m h k = let next = k a t h.1 in (next.0 ∙ h.0, next.1)
and_then-Untouched P Q (err e, t) f m h k = (h.0, tt)

abbrev pub Anything : {A : Type 0} → A → Type 0
Anything a = Unit

Fits-Anything : {A : Type 0} (r : Result A) → Fits Anything r
Fits-Anything (ok a) = tt
Fits-Anything (err e) = tt

abbrev pub IsBuilt : ℤ → Type 0
IsBuilt rv = rv ≡ all_well

or_true : (b : Bool) → b || true ≡ true
or_true true = refl
or_true false = refl

-- The stamp of a regular file.
read_stamp-file :
    (fs : FileSystem) (base name : Text) (d : Metadata)
    → fs.lstat (join base name) ≡ some d
    → d.is_dir ≡ false
    → d.is_symlink ≡ false
    → read_stamp fs base name ≡ print_stamp d
unfolding read_stamp read_stamp_st stamp_of
read_stamp-file fs base name d there no_dir no_link = rw (there, no_dir, no_link) refl

-- It is not the stamp of a file that is missing.
print_stamp-there : (d : Metadata) → text_eq (print_stamp d) stamp_missing ≡ false
unfolding print_stamp join_with
print_stamp-there d = elim (Bool-cases (text_eq (print_stamp d) stamp_missing)) [
  | inr other ↦ other
  | inl same ↦
      let e = (text_eq_iff (print_stamp d) stamp_missing).0 same in
      let long = length-append d.mtime (dash ∷ to_string d.size ++ (dash ∷ rest_of d)) in
      let more = length-append (to_string d.size) (dash ∷ rest_of d) in
      absurd (omega (arith, ap length e, long, more))
]
  where
    rest_of : Metadata → Text
    rest_of d =
        to_string d.ino
        ++ (dash ∷ to_string d.mode ++ (dash ∷ to_string d.uid ++ (dash ∷ to_string d.gid)))

detect_override-changed :
    (old new : Metadata)
    → Lacks dash old.mtime
    → Lacks dash new.mtime
    → (old.mtime ≢ new.mtime) ⊎ (old.size ≢ new.size)
    → detect_override (print_stamp old) (print_stamp new) ≡ true
detect_override-changed old new ho hn differs =
    elim (Bool-cases (detect_override (print_stamp old) (print_stamp new))) [
      | inl hit ↦ hit
      | inr miss ↦
          let same = (detect_override-print_stamp old new ho hn).0 miss in
          elim differs [ inl d ↦ absurd (d same.0) | inr d ↦ absurd (d same.1) ]
    ]

-- A file with another time or size than the recorded ones.
abbrev pub Changed : File → Metadata → Type 0
Changed sf new =
    (old : Metadata) × (sf.stamp ≡ some (print_stamp old))
    × Lacks dash old.mtime
    × ((old.mtime ≢ new.mtime) ⊎ (old.size ≢ new.size))

module _ (w : World) (os : Os) (c : Setting) where
  unlock-Untouched :
      (l : Option Lock) (m : Machine) → Untouched Anything (unlock_target w os c l m) m
  unfolding unlock_target
  unlock-Untouched none m = (refl, tt)
  unlock-Untouched (some l) m = (refl, Fits-Anything (unlock_target w os c (some l) m).0)

  ends-Untouched :
      (l : Option Lock) (m : Machine)
      → Untouched IsBuilt (and_then (λ u. answer (ok all_well)) (unlock_target w os c l m)) m
  ends-Untouched l m =
      and_then-Untouched Anything IsBuilt (unlock_target w os c l m) (λ u. answer (ok all_well)) m
        (unlock-Untouched l m) (λ u t h. (refl, refl))

  abbrev saved : File → Machine → Machine
  saved g m = record m { state = commit (Files.save (now w os m) g m.state) }

  keep_static-Untouched :
      (l : Option Lock) (sf : File) (m : Machine) → Untouched IsBuilt (keep_static w os c l sf m) m
  unfolding keep_static save_commit
  keep_static-Untouched l sf m = elim (Result-cases (Files.set_static (now w os m) sf)) [
    | inl (e, refused) ↦ rw refused (refl, tt)
    | inr (g, good) ↦ rw good (ends-Untouched l (saved g m))
  ]

  make_override-Untouched :
      (l : Option Lock) (sf : File) (m : Machine)
      → Untouched IsBuilt (make_override w os c l sf m) m
  unfolding make_override save_commit
  make_override-Untouched l sf m = elim (Result-cases (Files.set_override (now w os m) sf)) [
    | inl (e, refused) ↦ rw refused (refl, tt)
    | inr (g, good) ↦ rw good (ends-Untouched l (saved g m))
  ]

  keep_override-Untouched :
      (l : Option Lock) (sf : File) (m : Machine)
      → Untouched IsBuilt (keep_override w os c l sf m) m
  unfolding keep_override
  keep_override-Untouched l sf m = elim (Bool-cases sf.is_override) [
    | inl old ↦ rw old (ends-Untouched l m)
    | inr new ↦
        subst (λ (k : Steps ℤ). Untouched IsBuilt (k m) m) (sym (pick new))
          (make_override-Untouched l sf m)
  ]
    where
      pick : sf.is_override ≡ false → keep_override w os c l sf ≡ make_override w os c l sf
      pick e = rw e refl

  -- The target was generated, but the file on disk is the user's: it is marked so already, or its time
  -- or size is not the recorded one.
  pub record IsOverride (sf : File) (m : Machine) : Type 0 where
    pub generated : sf.is_generated ≡ true
    pub there : Metadata
    pub on_disk : m.fs.lstat (join w.base sf.name) ≡ some there
    pub no_dir : there.is_dir ≡ false
    pub no_link : there.is_symlink ≡ false
    pub plain : Lacks dash there.mtime
    pub mark : (sf.is_override ≡ true) ⊎ Changed sf there

  is_overridden-IsOverride :
      (sf : File) (m : Machine)
      → IsOverride sf m
      → is_overridden sf (Files.stamp_now (now w os m) sf) ≡ true
  unfolding is_overridden Files.stamp_now read_stamp
  is_overridden-IsOverride sf m o =
      let now_is : Files.stamp_now (now w os m) sf ≡ print_stamp o.there =
        read_stamp-file m.fs w.base sf.name o.there o.on_disk o.no_dir o.no_link in
      let stays = print_stamp-there o.there in
      elim o.mark [
        | inl old ↦ rw (now_is, o.generated, stays, old) refl
        | inr (before, recorded, plain_before, differs) ↦
            let hit = detect_override-changed before o.there plain_before o.plain differs in
            rw (now_is, o.generated, stays, recorded, hit) (or_true sf.is_override)
      ]

  -- A generated target is not built if a regular file is in its place that is marked as the
  -- user's, or whose modification time or size is not the recorded one; and neither is a file
  -- that is there and was not generated. Nothing on the disk changes then, and the status is
  -- 0, unless an error is returned. The recorded stamp is that of a regular file, and times
  -- are not negative.
  pub build_or_keep-Untouched :
      (target : Text) (l : Option Lock) (sf : File) (m : Machine)
      → IsOverride sf m ⊎ (exists m.fs target ≡ true) × (sf.is_generated ≡ false)
      → Untouched IsBuilt (build_or_keep w os c target l sf m) m
  unfolding build_or_keep
  build_or_keep-Untouched target l sf m (inl over) =
      rw (is_overridden-IsOverride sf m over) (keep_override-Untouched l sf m)
  build_or_keep-Untouched target l sf m (inr (there, source)) =
      let own : is_overridden sf (Files.stamp_now (now w os m) sf) ≡ false =
        unfold is_overridden in rw source refl in
      let static : exists m.fs target && not sf.is_generated ≡ true = rw (there, source) refl in
      rw (own, static) (keep_static-Untouched l sf m)
