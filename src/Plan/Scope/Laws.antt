-- ===== src/Plan/Scope/Laws.antt =====
-- Sets of texts, and what one round of `compute_plan_scope` adds to the scope and to the queue.
use mathlib.Core.List.{foldl}
use redo.Base.{
  ℕ, ◌+◌, ◌≤◌, ◌<◌, true, false, ◌||◌, List, [], ◌∷◌, ◌++◌, Text, text_eq, text_eq_iff, ◌≡◌, refl,
  ◌∙◌, ◌⊎◌, inl, inr, arith, length, length-append, Bool-cases, if◌then◌else◌,
}
use redo.Plan.Scope.{in_set, Search, enqueue, offer}

abbrev pub Has : List Text → Text → Type 0
Has ss t = in_set ss t ≡ true

pub in_set-append :
    (ss ts : List Text) (t : Text) → in_set (ss ++ ts) t ≡ in_set ss t || in_set ts t
unfolding in_set
in_set-append [] ts t = refl
in_set-append (s ∷ ss) ts t = ground (arith, in_set-append ss ts t)

pub in_set-last :
    (ss : List Text) (s t : Text) → in_set (ss ++ (s ∷ [])) t ≡ in_set ss t || text_eq s t
unfolding in_set
in_set-last ss s t = ground (arith, in_set-append ss (s ∷ []) t)

-- How many entries of a list are not in a set yet.
abbrev pub unseen : List Text → List Text → ℕ
unseen [] ss = 0
unseen (t ∷ ts) ss = (if in_set ss t then 0 else 1) + unseen ts ss

unseen-last_le : (ts ss : List Text) (k : Text) → unseen ts (ss ++ (k ∷ [])) ≤ unseen ts ss
unseen-last_le [] ss k = omega arith
unseen-last_le (t ∷ ts) ss k = ground (arith, in_set-last ss k t, unseen-last_le ts ss k)

-- A new entry of the list makes the number smaller.
pub unseen-last_lt :
    (ts ss : List Text) (k : Text)
    → Has ts k
    → in_set ss k ≡ false
    → unseen ts (ss ++ (k ∷ [])) < unseen ts ss
unfolding in_set
unseen-last_lt [] ss k h new = cc
unseen-last_lt (t ∷ ts) ss k h new = ground (
  arith,
  in_set-last ss k t,
  text_eq_iff t k,
  text_eq_iff k t,
  unseen-last_le ts ss k,
  unseen-last_lt ts ss k,
)

pub unseen_nil : (ts : List Text) → unseen ts [] ≡ length ts
unfolding in_set
unseen_nil [] = refl
unseen_nil (t ∷ ts) = omega (arith, unseen_nil ts)

-- What texts that were offered one after the other changed.
pub record Grew (plan_all v : List Text) (s t : Search) : Type 0 where
  pub kept : (k : Text) → Has s.scope k → Has t.scope k
  pub waits : (k : Text) → Has s.queue k → Has t.queue k
  pub added :
      (k : Text) → Has t.scope k → Has s.scope k ⊎ (Has plan_all k × Has v k × Has t.queue k)
  pub taken : (k : Text) → Has plan_all k → Has v k → Has t.scope k
  pub queued : (k : Text) → Has t.queue k → Has s.queue k ⊎ Has t.scope k
  pub fewer : unseen plan_all t.scope + length t.queue ≤ unseen plan_all s.scope + length s.queue
  pub same : t.adj ≡ s.adj

Grew-refl : (plan_all : List Text) (s : Search) → Grew plan_all [] s s
unfolding in_set
Grew-refl plan_all s = record {
  kept = λ k h. h;
  waits = λ k h. h;
  added = λ k h. inl h;
  taken = λ k p h. cc;
  queued = λ k h. inl h;
  fewer = omega arith;
  same = refl;
}

module _ (plan_all : List Text) where
  offer-Grew : (s : Search) (d : Text) → Grew plan_all (d ∷ []) s (offer plan_all s d)
  unfolding offer enqueue in_set
  offer-Grew s d = elim (Bool-cases (in_set plan_all d)) [
    | inl in_plan ↦ elim (Bool-cases (in_set s.scope d)) [
      | inl old ↦
          rw (in_plan, old)
            record {
              kept = λ k h. h;
              waits = λ k h. h;
              added = λ k h. inl h;
              taken = λ k p h. ground (arith, text_eq_iff d k, old);
              queued = λ k h. inl h;
              fewer = omega arith;
              same = refl;
            }
      | inr new ↦
          rw (in_plan, new)
            record {
              kept = λ k h. ground (arith, in_set-last s.scope d k);
              waits = λ k h. ground (arith, in_set-last s.queue d k);
              added = λ k h.
                  ground (arith, in_set-last s.scope d k, in_set-last s.queue d k, text_eq_iff d k);
              taken = λ k p h. ground (arith, in_set-last s.scope d k);
              queued = λ k h. ground (arith, in_set-last s.scope d k, in_set-last s.queue d k);
              fewer = omega (
                arith,
                unseen-last_lt plan_all s.scope d in_plan new,
                length-append s.queue (d ∷ []),
              );
              same = refl;
            }
    ]
    | inr outside ↦ rw outside record {
      kept = λ k h. h;
      waits = λ k h. h;
      added = λ k h. inl h;
      taken = λ k p h. ground (arith, text_eq_iff d k, outside);
      queued = λ k h. inl h;
      fewer = omega arith;
      same = refl;
    }
  ]

  Grew-trans :
      {s t u : Search} (d : Text) (v : List Text)
      → Grew plan_all (d ∷ []) s t
      → Grew plan_all v t u
      → Grew plan_all (d ∷ v) s u
  unfolding in_set
  Grew-trans {s} {t} {u} d v g h = record {
    kept = λ k p. h.kept k (g.kept k p);
    waits = λ k p. h.waits k (g.waits k p);
    added = λ k p. ground (arith, h.added k, g.added k, h.waits k);
    taken = λ k p q. ground (arith, h.taken k, g.taken k, h.kept k);
    queued = λ k p. ground (arith, h.queued k, g.queued k, h.kept k);
    fewer = omega (arith, g.fewer, h.fewer);
    same = h.same ∙ g.same;
  }

  pub offers-Grew : (v : List Text) (s : Search) → Grew plan_all v s (foldl (offer plan_all) s v)
  offers-Grew [] s = Grew-refl plan_all s
  offers-Grew (d ∷ v) s = Grew-trans d v (offer-Grew s d) (offers-Grew v (offer plan_all s d))
