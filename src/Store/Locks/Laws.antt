-- ===== src/Store/Locks/Laws.antt =====
-- The life of a lock object: what is owned is known to the process, which makes no second object
-- for it.
use redo.Base.{
  Result-cases, ℕ, ◌≡◌, refl, sym, ◌∙◌, ap, Bool, true, false, not, List, [], ◌∷◌, arith, Text,
  none, some, ◌==◌, if◌then◌else◌, Result, ok, err, lock_exists, inl, inr, Bool-cases,
}
use redo.Store.Transactions.{State}
use redo.Store.Locks.{
  Lock, Held, left, held, forget, remember, Fcntl, lock_region, unlock_region, new, is_held, check,
  own, taken_or_not, trylock, waited, waitlock, let_go, unlock, drop_lock,
}

held-forget :
    (i fid : ℕ) (m : List (ℕ × Bool))
    → held i (forget fid m) ≡ (if i == fid then none else held i m)
unfolding held forget
held-forget i fid [] = ground arith
held-forget i fid ((j, b) ∷ m) = ground (arith, held-forget i fid m)

held-remember :
    (i fid : ℕ) (b : Bool) (m : List (ℕ × Bool))
    → held i (remember fid b m) ≡ (if i == fid then some b else held i m)
unfolding held remember
held-remember i fid b m = ground (arith, held-forget i fid m)

-- What is done with a lock object between its creation and its drop.
pub data Call : Type 0 where
  tries waits : Text → Fcntl → Call
  unlocks : Fcntl → Call

unfoldable pub step : Lock × State → Call → Lock × State
step (l, s) (tries var a) = left (trylock var a l s)
step (l, s) (waits var a) = left (waitlock var a l s)
step (l, s) (unlocks a) = left (unlock a l s)

unfoldable pub run : Lock × State → List Call → Lock × State
unfolding step
run r [] = r
run r (c ∷ cs) = run (step r c) cs

-- From one state to a later one: the lock keeps its id, no other id is touched, and if what is
-- owned was known, it still is.
pub record Keeps (r q : Lock × State) : Type 0 where
  pub same_id : q.0.fid ≡ r.0.fid
  pub others : (i : ℕ) → i == r.0.fid ≡ false → held i q.1.locks_held ≡ held i r.1.locks_held
  pub known :
      (r.0.owned ≡ true → held r.0.fid r.1.locks_held ≡ some true)
      → q.0.owned ≡ true
      → held q.0.fid q.1.locks_held ≡ some true

Keeps-refl : (r : Lock × State) → Keeps r r
Keeps-refl r = record { same_id = refl; others = λ i h. refl; known = λ h. h }

own-Keeps : (l : Lock) (s : State) → Keeps (l, s) (own l s)
unfolding own
own-Keeps l s = record {
  same_id = refl;
  others = λ i h. ground (arith, held-remember i l.fid true s.locks_held);
  known = λ h o. ground (arith, held-remember l.fid l.fid true s.locks_held);
}

taken_or_not-Keeps :
    (r : Result Bool) (l : Lock) (s : State) → Keeps (l, s) (left (taken_or_not r l s))
unfolding taken_or_not
taken_or_not-Keeps (err e) l s = Keeps-refl (l, s)
taken_or_not-Keeps (ok true) l s = own-Keeps l s
taken_or_not-Keeps (ok false) l s = record {
  same_id = refl;
  others = λ i h. refl;
  known = λ h o. cc;
}

waited-Keeps : (r : Result Bool) (l : Lock) (s : State) → Keeps (l, s) (left (waited r l s))
unfolding waited
waited-Keeps (err e) l s = Keeps-refl (l, s)
waited-Keeps (ok b) l s = own-Keeps l s

let_go-Keeps : (r : Result (Unit {0})) (l : Lock) (s : State) → Keeps (l, s) (left (let_go r l s))
unfolding let_go
let_go-Keeps (err e) l s = Keeps-refl (l, s)
let_go-Keeps (ok u) l s = record {
  same_id = refl;
  others = λ i h. ground (arith, held-remember i l.fid false s.locks_held);
  known = λ h o. cc;
}

if-Keeps :
    {A : Type 0} (b : Bool) (r : Lock × State) (x y : Held A)
    → Keeps r (left x)
    → Keeps r (left y)
    → Keeps r (left (if b then x else y))
if-Keeps true r x y h k = h
if-Keeps false r x y h k = k

step-Keeps : (l : Lock) (s : State) (c : Call) → Keeps (l, s) (step (l, s) c)
unfolding step trylock waitlock unlock
step-Keeps l s (tries var a) = elim (Result-cases (check var l)) [
  | inl (e, bad) ↦ rw (bad, trylock) (Keeps-refl (l, s))
  | inr (u, good) ↦ rw (good, trylock) (taken_or_not-Keeps (lock_region true a) l s)
]
step-Keeps l s (waits var a) = elim (Result-cases (check var l)) [
  | inl (e, bad) ↦ rw (bad, waitlock) (Keeps-refl (l, s))
  | inr (u, good) ↦ rw (good, waitlock) (waited-Keeps (lock_region false a) l s)
]
step-Keeps l s (unlocks a) =
    if-Keeps (not l.owned) (l, s) _ _ (Keeps-refl (l, s)) (let_go-Keeps (unlock_region a) l s)

Keeps-trans : (p q r : Lock × State) → Keeps p q → Keeps q r → Keeps p r
Keeps-trans p q r h k = record {
  same_id = k.same_id ∙ h.same_id;
  others = λ i e. k.others i (rw (h.same_id) e) ∙ h.others i e;
  known = λ g. k.known (h.known g);
}

run-Keeps : (r : Lock × State) (cs : List Call) → Keeps r (run r cs)
unfolding run
run-Keeps r [] = Keeps-refl r
run-Keeps (l, s) (c ∷ cs) =
    Keeps-trans (l, s) (step (l, s) c) (run (step (l, s) c) cs) (step-Keeps l s c)
      (run-Keeps (step (l, s) c) cs)

-- What `new` makes.
new_lem :
    (fid : ℕ) (s t : State) (l : Lock)
    → new fid s ≡ (ok l, t)
    → (l ≡ record { fid = fid; owned = false }) × (t.locks_held ≡ remember fid false s.locks_held)
unfolding new
new_lem fid s t l e = elim (Bool-cases (is_held (held fid s.locks_held))) [
  | inl old ↦ cc (rw (old, new) at e)
  | inr free ↦
      let e' = rw (free, new) at e in
      (cc e', sym (ap (λ (r : Result Lock × State). r.1.locks_held) e'))
]

if_true {ℓ} : {A : Type ℓ} (b : Bool) (x y : A) → (b ≡ true → y ≡ x) → y ≡ (if b then x else y)
if_true true x y h = h refl
if_true false x y h = refl

-- A new lock object, after any calls on it: the calls touch no other id; while it is owned no
-- second object for its id is made; and when it is dropped its id is unknown.
pub new-run-drop_lock :
    (fid : ℕ) (s t : State) (l : Lock) (cs : List Call) (a : Fcntl) (i : ℕ)
    → new fid s ≡ (ok l, t)
    → i == fid ≡ false
    → let (m, u) = run (l, t) cs in
      (held i u.locks_held ≡ held i s.locks_held)
      × (new fid u ≡ (if m.owned then (err lock_exists, u) else new fid u))
      × (held fid (drop_lock a m u).locks_held ≡ none)
unfolding new drop_lock
new-run-drop_lock fid s t l cs a i e other =
    let made = new_lem fid s t l e in
    let kept = run-Keeps (l, t) cs in
    let (m, u) = run (l, t) cs in
    let here : l.fid ≡ fid = ap (λ (k : Lock). k.fid) made.0 in
    let unowned : l.owned ≡ false = ap (λ (k : Lock). k.owned) made.0 in
    let there : m.fid ≡ fid = kept.same_id ∙ here in
    (
      (kept.others i (ground (arith, other, here))
          ∙ (ap (held i) made.1 ∙ ground (arith, held-remember i fid false s.locks_held, other))),
      if_true m.owned (err lock_exists, u) (new fid u)
          (λ o.
            let known = sym (ap (λ (i : ℕ). held i u.locks_held) there) ∙ kept.known (λ x. cc) o in
            rw (known, new) refl),
      ground (
        arith,
        held-forget fid m.fid (if m.owned then (unlock a m u).2 else u).locks_held,
        there,
      ),
    )
