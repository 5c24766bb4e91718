-- ===== src/Remote/Server/Spec.antt =====
-- What the cache server promises: blobs under their digests and a mapping from actions to manifests,
-- both written once.
use redo.Base.{
  ◌≡◌, sym, ap, ◌∙◌, [], ◌∷◌, ◌++◌, Text, text_eq, text_eq_iff, Option, none, some, if◌then◌else◌,
  arith, inl, inr, Bool-cases,
}
use redo.Remote.{Bytes}
use redo.Remote.Server.{IsKey}

pub record Cache : Type 0 where
  pub blobs : Text → Option Bytes
  pub actions : Text → Option Text

unfoldable pub put {ℓ} : {A : Type ℓ} → Text → A → (Text → Option A) → Text → Option A
unfolding text_eq
put k a m j = if text_eq j k then some a else m j

-- Writing where nothing is keeps what is there.
put_kept {ℓ} :
    {A : Type ℓ} (k j : Text) (a x : A) (m : Text → Option A)
    → m k ≡ none
    → m j ≡ some x
    → put k a m j ≡ some x
unfolding put
put_kept k j a x m n h = elim (Bool-cases (text_eq j k)) [
  | inl same ↦
      let e : none ≡ some x = sym n ∙ ap m (sym ((text_eq_iff j k).0 same)) ∙ h in absurd cc
  | inr other ↦ rw other h
]

-- What is there stays.
pub record Extends (c d : Cache) : Type 0 where
  pub blobs_kept : (k : Text) (b : Bytes) → c.blobs k ≡ some b → d.blobs k ≡ some b
  pub actions_kept : (k : Text) (s : Text) → c.actions k ≡ some s → d.actions k ≡ some s

pub Extends-refl : (c : Cache) → Extends c c
Extends-refl c = record { blobs_kept = λ k b h. h; actions_kept = λ k s h. h }

pub Extends-trans : (c d e : Cache) → Extends c d → Extends d e → Extends c e
Extends-trans c d e p q = record {
  blobs_kept = λ k b h. q.blobs_kept k b (p.blobs_kept k b h);
  actions_kept = λ k s h. q.actions_kept k s (p.actions_kept k s h);
}

module _ (sha256 : Bytes → Text) where
  -- One step: nothing, a new blob under its digest, or the first manifest of an action, on a line.
  pub data Step (c : Cache) : Cache → Type 0 where
    stutter : Step c c
    stores :
        (k : Text) (b : Bytes)
        → IsKey k
        → sha256 b ≡ k
        → c.blobs k ≡ none
        → Step c (record { blobs = put k b c.blobs; actions = c.actions })
    map_action :
        (k m : Text)
        → IsKey k
        → IsKey m
        → c.actions k ≡ none
        → Step c (record { blobs = c.blobs; actions = put k (m ++ (10 ∷ [])) c.actions })

  -- Every blob is under its digest.
  abbrev pub IsStored : Cache → Type 0
  IsStored c = (k : Text) (b : Bytes) → c.blobs k ≡ some b → sha256 b ≡ k

  pub Step-IsStored : (c d : Cache) → Step c d → IsStored c → IsStored d
  unfolding put
  Step-IsStored c d stutter h = h
  Step-IsStored c d (stores k b hk e n) h = λ j x q. ground (arith, h j x, text_eq_iff j k, e)
  Step-IsStored c d (map_action k m hk hm n) h = h

  pub Step-Extends : (c d : Cache) → Step c d → Extends c d
  Step-Extends c d stutter = Extends-refl c
  Step-Extends c d (stores k b hk e n) = record {
    blobs_kept = λ j x h. put_kept k j b x c.blobs n h;
    actions_kept = λ j s h. h;
  }
  Step-Extends c d (map_action k m hk hm n) = record {
    blobs_kept = λ j b h. h;
    actions_kept = λ j s h. put_kept k j (m ++ (10 ∷ [])) s c.actions n h;
  }
