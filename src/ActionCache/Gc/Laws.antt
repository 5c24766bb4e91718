-- ===== src/ActionCache/Gc/Laws.antt =====
-- What a collection leaves.
use mathlib.Core.List.{Perm}
use mathlib.Core.List.Perm
use redo.Base.{
  ℕ, ◌+◌, ◌-◌, ◌^◌, ◌<◌, ◌≤◌, ◌≡◌, refl, sym, ap, ◌∙◌, subst, true, false, List, [], ◌∷◌, ◌++◌, All,
  arith, ◌==◌, leb, Bool-cases, inl, inr,
}
use redo.ActionCache.Gc.{
  ObjEntry, obj_leb, insert_obj, sort_objs, total_size, Swept, delete_oldest, maybe_gc,
}

-- The sizes together, as a number without a bound.
abbrev pub sizes : List ObjEntry → ℕ
sizes [] = 0
sizes (o ∷ os) = o.size + sizes os

total_size_lem : (os : List ObjEntry) → sizes os < 2 ^ 64 → total_size os ≡ sizes os
unfolding total_size
total_size_lem [] h = refl
total_size_lem (o ∷ os) h = omega (arith, h, total_size_lem os (omega (arith, h)))

abbrev NotBefore : ℕ → List ObjEntry → Type 0
NotBefore t os = All (λ (p : ObjEntry). t ≤ p.mtime_secs) os

abbrev InOrder : List ObjEntry → Type 0
InOrder [] = Unit
InOrder (o ∷ os) = NotBefore o.mtime_secs os × InOrder os

NotBefore-insert_obj :
    (t : ℕ) (o : ObjEntry) (os : List ObjEntry)
    → t ≤ o.mtime_secs
    → NotBefore t os
    → NotBefore t (insert_obj o os)
unfolding insert_obj
NotBefore-insert_obj t o [] h hs = (h, tt)
NotBefore-insert_obj t o (p ∷ ps) h hs = elim (Bool-cases (obj_leb o p)) [
  | inl first ↦ rw first (h, hs)
  | inr later ↦ rw later (hs.0, NotBefore-insert_obj t o ps h hs.1)
]

NotBefore-trans : (s t : ℕ) (os : List ObjEntry) → s ≤ t → NotBefore t os → NotBefore s os
NotBefore-trans s t [] h hs = tt
NotBefore-trans s t (o ∷ os) h hs = (omega (arith, h, hs.0), NotBefore-trans s t os h hs.1)

obj_leb-le : (o p : ObjEntry) → obj_leb o p ≡ true → o.mtime_secs ≤ p.mtime_secs
unfolding obj_leb
obj_leb-le o p h = ground (arith, h)

obj_leb-ge : (o p : ObjEntry) → obj_leb o p ≡ false → p.mtime_secs ≤ o.mtime_secs
unfolding obj_leb
obj_leb-ge o p h = ground (arith, h)

insert_obj-InOrder : (o : ObjEntry) (os : List ObjEntry) → InOrder os → InOrder (insert_obj o os)
unfolding insert_obj
insert_obj-InOrder o [] h = (tt, tt)
insert_obj-InOrder o (p ∷ ps) h = elim (Bool-cases (obj_leb o p)) [
  | inl first ↦ rw first (
    (obj_leb-le o p first, NotBefore-trans o.mtime_secs p.mtime_secs ps (obj_leb-le o p first) h.0),
    h,
  )
  | inr later ↦ rw later (
    NotBefore-insert_obj p.mtime_secs o ps (obj_leb-ge o p later) h.0,
    insert_obj-InOrder o ps h.1,
  )
]

sort_objs-InOrder : (os : List ObjEntry) → InOrder (sort_objs os)
unfolding sort_objs
sort_objs-InOrder [] = tt
sort_objs-InOrder (o ∷ os) = insert_obj-InOrder o (sort_objs os) (sort_objs-InOrder os)

insert_obj-Perm : (o : ObjEntry) (os : List ObjEntry) → Perm (insert_obj o os) (o ∷ os)
unfolding insert_obj
insert_obj-Perm o [] = Perm.refl (o ∷ [])
insert_obj-Perm o (p ∷ ps) = elim (Bool-cases (obj_leb o p)) [
  | inl first ↦ rw first (Perm.refl (o ∷ p ∷ ps))
  | inr later ↦ rw later (Perm.trans (Perm.cons p (insert_obj-Perm o ps)) (Perm.swap o p ps))
]

sort_objs-Perm : (os : List ObjEntry) → Perm (sort_objs os) os
unfolding sort_objs
sort_objs-Perm [] = Perm.refl []
sort_objs-Perm (o ∷ os) =
    Perm.trans (insert_obj-Perm o (sort_objs os)) (Perm.cons o (sort_objs-Perm os))

-- Without the last object that is gone, more than the bound would be left.
abbrev pub IsTight : ℕ → List ObjEntry → List ObjEntry → Type 0
IsTight maxb kept [] = Unit
IsTight maxb kept (g ∷ []) = maxb < g.size + sizes kept
IsTight maxb kept (g ∷ h ∷ gs) = IsTight maxb kept (h ∷ gs)

-- Everything that is gone is at least as old as everything that is kept.
abbrev pub IsOlder : List ObjEntry → List ObjEntry → Type 0
IsOlder kept gone = All (λ (g : ObjEntry). NotBefore g.mtime_secs kept) gone

pub record IsSweep (maxb : ℕ) (objs : List ObjEntry) (r : Swept) : Type 0 where
  pub fits : sizes r.0 ≤ maxb
  pub tight : IsTight maxb r.0 r.1
  pub older : IsOlder r.0 r.1
  pub same : Perm (r.1 ++ r.0) objs

delete_oldest_parts :
    (maxb total : ℕ) (os : List ObjEntry)
    → (delete_oldest maxb total os).1 ++ (delete_oldest maxb total os).0 ≡ os
unfolding delete_oldest
delete_oldest_parts maxb total [] = refl
delete_oldest_parts maxb total (o ∷ os) = elim (Bool-cases (leb total maxb)) [
  | inl fits ↦ rw fits refl
  | inr more ↦
      rw more (ap (λ (l : List ObjEntry). o ∷ l) (delete_oldest_parts maxb (total - o.size) os))
]

delete_oldest_fits :
    (maxb : ℕ) (os : List ObjEntry) (total : ℕ)
    → total ≡ sizes os
    → sizes (delete_oldest maxb total os).0 ≤ maxb
unfolding delete_oldest
delete_oldest_fits maxb [] total h = ground arith
delete_oldest_fits maxb (o ∷ os) total h = elim (Bool-cases (leb total maxb)) [
  | inl fits ↦ rw fits (ground (arith, fits, h))
  | inr more ↦ rw more (delete_oldest_fits maxb os (total - o.size) (omega (arith, h)))
]

NotBefore-drop : (t : ℕ) (xs ys : List ObjEntry) → NotBefore t (xs ++ ys) → NotBefore t ys
NotBefore-drop t [] ys h = h
NotBefore-drop t (x ∷ xs) ys h = NotBefore-drop t xs ys h.1

InOrder-IsOlder : (gone kept : List ObjEntry) → InOrder (gone ++ kept) → IsOlder kept gone
InOrder-IsOlder [] kept h = tt
InOrder-IsOlder (g ∷ gs) kept h =
    (NotBefore-drop g.mtime_secs gs kept h.0, InOrder-IsOlder gs kept h.1)

IsTight-step :
    (maxb : ℕ) (o : ObjEntry) (kept gone : List ObjEntry)
    → maxb < o.size + (sizes gone + sizes kept)
    → IsTight maxb kept gone
    → IsTight maxb kept (o ∷ gone)
IsTight-step maxb o kept [] h t = omega (arith, h)
IsTight-step maxb o kept (g ∷ gs) h t = t

sizes-append : (xs ys : List ObjEntry) → sizes (xs ++ ys) ≡ sizes xs + sizes ys
sizes-append [] ys = omega arith
sizes-append (x ∷ xs) ys = omega (arith, sizes-append xs ys)

delete_oldest-IsTight :
    (maxb : ℕ) (os : List ObjEntry) (total : ℕ)
    → total ≡ sizes os
    → IsTight maxb (delete_oldest maxb total os).0 (delete_oldest maxb total os).1
unfolding delete_oldest
delete_oldest-IsTight maxb [] total h = tt
delete_oldest-IsTight maxb (o ∷ os) total h = elim (Bool-cases (leb total maxb)) [
  | inl fits ↦ rw fits tt
  | inr more ↦
      let r = delete_oldest maxb (total - o.size) os in
      let parts = ap sizes (delete_oldest_parts maxb (total - o.size) os) in
      rw more (
        IsTight-step maxb o r.0 r.1 (ground (arith, more, h, parts, sizes-append r.1 r.0))
          (delete_oldest-IsTight maxb os (total - o.size) (omega (arith, h))))
]

sizes-insert_obj : (o : ObjEntry) (os : List ObjEntry) → sizes (insert_obj o os) ≡ o.size + sizes os
unfolding insert_obj
sizes-insert_obj o [] = refl
sizes-insert_obj o (p ∷ ps) = ground (arith, sizes-insert_obj o ps)

sizes-sort_objs : (os : List ObjEntry) → sizes (sort_objs os) ≡ sizes os
unfolding sort_objs
sizes-sort_objs [] = refl
sizes-sort_objs (o ∷ os) =
    sizes-insert_obj o (sort_objs os) ∙ ap (λ (n : ℕ). o.size + n) (sizes-sort_objs os)

nothing_gone : (maxb : ℕ) (objs : List ObjEntry) → sizes objs ≤ maxb → IsSweep maxb objs (objs, [])
nothing_gone maxb objs h = record { fits = h; tight = tt; older = tt; same = Perm.refl objs }

delete_oldest-IsSweep :
    (maxb : ℕ) (objs : List ObjEntry)
    → IsSweep maxb objs (delete_oldest maxb (sizes objs) (sort_objs objs))
delete_oldest-IsSweep maxb objs =
    let r = delete_oldest maxb (sizes objs) (sort_objs objs) in
    let parts = delete_oldest_parts maxb (sizes objs) (sort_objs objs) in
    record {
      fits = delete_oldest_fits maxb (sort_objs objs) (sizes objs) (sym (sizes-sort_objs objs));
      tight = delete_oldest-IsTight maxb (sort_objs objs) (sizes objs) (sym (sizes-sort_objs objs));
      older = InOrder-IsOlder r.1 r.0 (subst InOrder (sym parts) (sort_objs-InOrder objs));
      same = subst (λ (l : List ObjEntry). Perm l objs) (sym parts) (sort_objs-Perm objs);
    }

-- With a bound that is not 0, and less than 2 ^ 64 bytes of objects, a collection leaves at
-- most as many bytes as the bound. What is gone is at least as old as what is kept, the last
-- object that is gone would not have fitted, and nothing else is lost.
pub maybe_gc-IsSweep :
    (maxb : ℕ) (objs : List ObjEntry)
    → maxb == 0 ≡ false
    → sizes objs < 2 ^ 64
    → IsSweep maxb objs (maybe_gc maxb objs)
unfolding maybe_gc
maybe_gc-IsSweep maxb objs hz hs = elim (Bool-cases (leb (sizes objs) maxb)) [
  | inl small ↦
      rw (hz, total_size_lem objs hs, small) (nothing_gone maxb objs (ground (arith, small)))
  | inr large ↦ rw (hz, total_size_lem objs hs, large) (delete_oldest-IsSweep maxb objs)
]
