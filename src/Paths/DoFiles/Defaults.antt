-- ===== src/Paths/DoFiles/Defaults.antt =====
-- The candidates of a target: its own .do file, and the default ones in its directory and above.
use mathlib.Core.List.{flat_map, reverse, reverse_aux, append_assoc, append-nil}
use native.Mathlib.Nat.{suc-mul}
use redo.Base.{
  ◌*◌, ◌+◌, length-append, contains, ◌==◌, ◌⊎◌, is_empty, if◌then◌else◌, All-append, sym, ltb→lt,
  subst, ℕ, zero, suc, ◌≤◌, ◌<◌, ◌≡◌, refl, ◌∙◌, ap, true, false, List, [], ◌∷◌, ◌++◌, map, arith,
  Text, codes, All, inl, inr, Bool-cases, split_on, join_with, join_with-split_on, none, some, ltb,
  length, take, drop,
}
use redo.Paths.Components.{slash, join}
use redo.Paths.DoFiles.{
  DoFile, full_stop, range, default_at, default_do_files, rsplit_once, candidate, walk_up,
}

-- Joining a first part and the rest of a list, with a separator between, joins the list.
join_with-take-drop :
    (sep i : ℕ) (ws : List Text)
    → 0 < i
    → i < length ws
    → join_with sep (take i ws) ++ (sep ∷ join_with sep (drop i ws)) ≡ join_with sep ws
unfolding join_with
join_with-take-drop sep zero ws h k = elim h [ ]
join_with-take-drop sep (suc i) [] h k = elim k [ ]
join_with-take-drop sep (suc i) (w ∷ []) h k = absurd (omega (arith, k))
join_with-take-drop sep (suc zero) (w ∷ v ∷ ws) h k = refl
join_with-take-drop sep (suc (suc i)) (w ∷ v ∷ ws) h k =
    append_assoc w (sep ∷ join_with sep (v ∷ take i ws)) (sep ∷ join_with sep (drop i ws))
    ∙ ap (λ (t : Text). w ++ (sep ∷ t))
        (join_with-take-drop sep (suc i) (v ∷ ws) (omega arith) (omega (arith, k)))

take-length : (i : ℕ) (ws : List Text) → length ws ≤ i → take i ws ≡ ws
take-length zero [] h = refl
take-length zero (w ∷ ws) h = absurd (omega (arith, h))
take-length (suc i) [] h = refl
take-length (suc i) (w ∷ ws) h =
    ap (λ (vs : List Text). w ∷ vs) (take-length i ws (omega (arith, h)))

-- A .do file for an extension, with the rest of the name.
abbrev pub Splits : Text → Text × Text × Text → Type 0
Splits filename (dofile, basename, ext) =
    (basename ++ ext ≡ filename) × (dofile ≡ codes "default" ++ ext ++ codes ".do")

default_at-Splits :
    (parts : List Text) (i : ℕ) → 0 < i → Splits (join_with full_stop parts) (default_at parts i)
unfolding default_at
default_at-Splits parts i h = elim (Bool-cases (ltb i (length parts))) [
  | inl more ↦
      rw more (join_with-take-drop full_stop i parts h (ltb→lt i (length parts) more), refl)
  | inr last ↦ rw last (
    append-nil (join_with full_stop (take i parts))
        ∙ ap (join_with full_stop) (take-length i parts (ground (arith, last))),
    refl,
  )
]

map-Splits :
    (parts : List Text) (n a : ℕ)
    → 0 < a
    → All (Splits (join_with full_stop parts)) (map (default_at parts) (range a n))
map-Splits parts zero a h = tt
map-Splits parts (suc n) a h =
    (default_at-Splits parts a h, map-Splits parts n (suc a) (omega arith))

-- Each default .do file of a name is for an extension of it, and comes with the rest of the
-- name.
default_do_files-Splits : (filename : Text) → All (Splits filename) (default_do_files filename)
unfolding default_do_files
default_do_files-Splits filename =
    let parts = split_on full_stop filename in
    subst (λ (t : Text). All (Splits t) (map (default_at parts) (range 1 (length parts))))
      (join_with-split_on full_stop filename) (map-Splits parts (length parts) 1 (omega arith))

rsplit_once-none : (sep : ℕ) (s : Text) → contains s sep ≡ false → rsplit_once sep s ≡ none
unfolding rsplit_once
rsplit_once-none sep [] h = refl
rsplit_once-none sep (c ∷ s) h =
    let other : c == sep ≡ false = ground (arith, h) in
    rw (rsplit_once-none sep s (ground (arith, h)), other) refl

-- A path is split at its last separator.
pub rsplit_once-append :
    (sep : ℕ) (dir name : Text)
    → contains name sep ≡ false
    → rsplit_once sep (dir ++ (sep ∷ name)) ≡ some (dir, name)
unfolding rsplit_once
rsplit_once-append sep [] name h =
    let same : sep == sep ≡ true = ground arith in rw (rsplit_once-none sep name h, same) refl
rsplit_once-append sep (c ∷ dir) name h = rw (rsplit_once-append sep dir name h) refl

-- The .do file that is the target's alone.
abbrev pub own_candidate : Text → Text → Text → DoFile
own_candidate base dir name = record {
  dodir = join base dir;
  dofile = name ++ codes ".do";
  basedir = [];
  basename = name;
  ext = [];
}

-- A directory, and what leads from there to a longer one.
abbrev pub Leads : Text → Text → Text → Type 0
Leads dirname above subdir =
    ((above ≡ dirname) × (subdir ≡ [])) ⊎ (above ++ (slash ∷ subdir) ≡ dirname)

-- A default .do file for an extension of a file name, in the file's directory or in one above it,
-- with what it is told of the target.
abbrev pub IsDefault : Text → Text → DoFile → Type 0
IsDefault dirname filename c =
    (c.dofile ≡ codes "default" ++ c.ext ++ codes ".do")
    × (c.basename ++ c.ext
        ≡ (if is_empty c.basedir then [] else c.basedir ++ (slash ∷ [])) ++ filename)
    × ((above : Text) × (c.dodir ≡ (if is_empty above then slash ∷ [] else above))
        × Leads dirname above c.basedir)

drop-length : (i : ℕ) (ws : List Text) → length ws ≤ i → drop i ws ≡ []
drop-length zero [] h = refl
drop-length zero (w ∷ ws) h = absurd (omega (arith, h))
drop-length (suc i) [] h = refl
drop-length (suc i) (w ∷ ws) h = drop-length i ws (omega (arith, h))

take-drop-Leads :
    (i : ℕ) (ws : List Text)
    → 0 < i
    → Leads (join_with slash ws) (join_with slash (take i ws)) (join_with slash (drop i ws))
unfolding join_with
take-drop-Leads i ws h = elim (Bool-cases (ltb i (length ws))) [
  | inl more ↦ inr (join_with-take-drop slash i ws h (ltb→lt i (length ws) more))
  | inr last ↦
      let long : length ws ≤ i = ground (arith, last) in
      inl
        (ap (join_with slash) (take-length i ws long), ap (join_with slash) (drop-length i ws long))
]

candidate-IsDefault :
    (ws : List Text) (filename : Text) (i : ℕ) (d : Text × Text × Text)
    → 0 < i
    → Splits filename d
    → IsDefault (join_with slash ws) filename (candidate ws i d)
unfolding candidate
candidate-IsDefault ws filename i (dofile, basename, ext) h (whole, named) =
    let subdir = join_with slash (drop i ws) in
    let over = join_with slash (take i ws) in
    let place : (above : Text) × ((if is_empty over then slash ∷ [] else over)
          ≡ (if is_empty above then slash ∷ [] else above))
        × Leads (join_with slash ws) above subdir =
      (over, refl, take-drop-Leads i ws h) in
    elim (Bool-cases (is_empty subdir)) [
      | inl here ↦ (named, rw here whole, place)
      | inr below ↦ (
        named,
        rw below (
            append_assoc subdir (slash ∷ basename) ext
            ∙ ap (λ (t : Text). subdir ++ (slash ∷ t)) whole
            ∙ sym (append_assoc subdir (slash ∷ []) filename)),
        place,
      )
    ]

map-All :
    {A B : Type 0} (f : A → B) (P : A → Type 0) (Q : B → Type 0) (xs : List A)
    → ((x : A) → P x → Q (f x))
    → All P xs
    → All Q (map f xs)
map-All f P Q [] step h = tt
map-All f P Q (x ∷ xs) step h = (step x h.0, map-All f P Q xs step h.1)

flat_map-All :
    (f : ℕ → List DoFile) (Q : DoFile → Type 0) (is : List ℕ)
    → ((i : ℕ) → 0 < i → All Q (f i))
    → All (λ (i : ℕ). 0 < i) is
    → All Q (flat_map f is)
unfolding flat_map
flat_map-All f Q [] step h = tt
flat_map-All f Q (i ∷ is) step h =
    All-append Q (f i) (flat_map f is) (step i h.0) (flat_map-All f Q is step h.1)

reverse_aux-All :
    (P : ℕ → Type 0) (xs ys : List ℕ) → All P xs → All P ys → All P (reverse_aux xs ys)
reverse_aux-All P [] ys h k = k
reverse_aux-All P (x ∷ xs) ys h k = reverse_aux-All P xs (x ∷ ys) h.1 (h.0, k)

range-All : (n a : ℕ) → 0 < a → All (λ (i : ℕ). 0 < i) (range a n)
range-All zero a h = tt
range-All (suc n) a h = (h, range-All n (suc a) (omega (arith, h)))

pub walk_up-IsDefault :
    (dirname filename : Text) → All (IsDefault dirname filename) (walk_up dirname filename)
unfolding walk_up
walk_up-IsDefault dirname filename =
    let ws = split_on slash dirname in
    let each =
      flat_map-All (λ (i : ℕ). map (candidate ws i) (default_do_files filename))
        (IsDefault (join_with slash ws) filename) (reverse (range 1 (length ws)))
        (λ i pos.
          map-All (candidate ws i) (Splits filename) _ (default_do_files filename)
            (λ d s. candidate-IsDefault ws filename i d pos s) (default_do_files-Splits filename))
        (reverse_aux-All (λ (i : ℕ). 0 < i) (range 1 (length ws)) []
          (range-All (length ws) 1 (omega arith)) tt) in
    subst (λ (t : Text). All (IsDefault t filename) (walk_up dirname filename))
      (join_with-split_on slash dirname) each

length-map : {A B : Type 0} (f : A → B) (xs : List A) → length (map f xs) ≡ length xs
length-map f [] = refl
length-map f (x ∷ xs) = ap suc (length-map f xs)

length-flat_map :
    (f : ℕ → List DoFile) (k : ℕ) (is : List ℕ)
    → ((i : ℕ) → length (f i) ≡ k)
    → length (flat_map f is) ≡ length is * k
unfolding flat_map
length-flat_map f k [] each = omega arith
length-flat_map f k (i ∷ is) each =
    let more = length-flat_map f k is each in
    let one = length-append (f i) (flat_map f is) in
    omega (arith, more, one, each i, suc-mul (length is) k)

length-reverse_aux : (xs ys : List ℕ) → length (reverse_aux xs ys) ≡ length xs + length ys
length-reverse_aux [] ys = omega arith
length-reverse_aux (x ∷ xs) ys = omega (arith, length-reverse_aux xs (x ∷ ys))

length-range : (a n : ℕ) → length (range a n) ≡ n
length-range a zero = refl
length-range a (suc n) = ap suc (length-range (suc a) n)

-- There is a candidate for each directory and each extension.
pub length-walk_up :
    (dirname filename : Text)
    → length (walk_up dirname filename)
      ≡ length (split_on slash dirname) * length (split_on full_stop filename)
unfolding walk_up default_do_files
length-walk_up dirname filename =
    let ws = split_on slash dirname in
    let parts = split_on full_stop filename in
    let each : (i : ℕ) → length (map (candidate ws i) (default_do_files filename)) ≡ length parts =
      λ i.
        length-map (candidate ws i) (default_do_files filename)
        ∙ (length-map (default_at parts) (range 1 (length parts))
            ∙ length-range 1 (length parts)) in
    let turns : length (reverse (range 1 (length ws))) ≡ length ws =
      omega (arith, length-reverse_aux (range 1 (length ws)) [], length-range 1 (length ws)) in
    length-flat_map (λ (i : ℕ). map (candidate ws i) (default_do_files filename)) (length parts)
      (reverse (range 1 (length ws))) each
    ∙ ap (λ (n : ℕ). n * length parts) turns
