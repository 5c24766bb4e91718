-- ===== src/Remote/Server/Requests.antt =====
-- A request, and a sequence of requests, as steps of the cache.
use redo.Base.{
  ◌≡◌, refl, sym, subst, Bool, true, false, Option, none, some, Option-cases, codes, trim, text_eq,
  text_eq_iff, ◌++◌, List, [], ◌∷◌, Text, ok, ◌⊎◌, inl, inr,
}
use redo.Remote.{Bytes, Utf8, IsCodec}
use redo.Remote.Http.{Headers, header, take_line, all_headers}
use redo.Remote.Server.{auth_ok, Config, Files}
use redo.Remote.Server.Serve.{handle_one}
use redo.Remote.Server.Routes.{IsRule, Outcome, handle_one-Outcome}
use redo.Remote.Server.Spec.{
  Step, stutter, IsStored, Step-IsStored, Extends, Extends-refl, Extends-trans, Step-Extends,
}
use redo.Remote.Server.Views.{view}
use redo.Remote.Server.Refines.{Takes, handle_put_blob-Takes, handle_put_action-Takes}

-- The connections that the server accepts one after the other: what is sent, and whether a rename
-- succeeds.
unfoldable pub serve_all : Utf8 → (Bytes → Text) → Config → List (Bool × Bytes) → Files → Files
serve_all u sha256 cfg [] fs = fs
serve_all u sha256 cfg ((renamed, bs) ∷ rs) fs =
    serve_all u sha256 cfg rs (handle_one u sha256 renamed cfg bs fs).1

-- The headers hold the token that is required: what follows "Bearer ", without blanks around it.
abbrev pub HasToken : Headers → Option Text → Type 0
HasToken hs none = Unit
HasToken hs (some token) =
    (v : Text) × (header (codes "authorization") hs ≡ some v) × (trim v ≡ codes "Bearer " ++ token)

auth_ok-HasToken : (hs : Headers) (o : Option Text) → auth_ok hs o ≡ true → HasToken hs o
unfolding auth_ok text_eq
auth_ok-HasToken hs none h = tt
auth_ok-HasToken hs (some token) h = elim (Option-cases (header (codes "authorization") hs)) [
  | inl e ↦ let clash : false ≡ true = rw e at h in absurd cc
  | inr (v, e) ↦ (v, e, (text_eq_iff (trim v) (codes "Bearer " ++ token)).0 (rw e at h))
]

module _ (u : Utf8) (sha256 : Bytes → Text) (cfg : Config) where
  step_rule : IsCodec u → IsRule u sha256 cfg (λ _ fs gs. Takes u sha256 cfg fs gs)
  step_rule codec = record {
    stays = λ hs fs. stutter;
    puts_blob = λ renamed hs k clen rest fs _ _ hk.
        handle_put_blob-Takes u sha256 cfg renamed k clen rest fs hk;
    puts_action = λ renamed hs k clen rest fs _ _ hk.
        handle_put_action-Takes u sha256 cfg renamed k clen rest fs codec hk;
  }

  -- A change needs a server that is not read-only and the token.
  abbrev pub IsPermitted : Headers → Files → Files → Type 0
  IsPermitted hs fs gs =
      (gs ≡ fs) ⊎ ((cfg.read_only ≡ false) × (auth_ok hs cfg.require_bearer ≡ true))

  permission_rule : IsRule u sha256 cfg IsPermitted
  permission_rule = record {
    stays = λ hs fs. inl refl;
    puts_blob = λ _ hs k clen rest fs writable auth _. inr (writable, auth);
    puts_action = λ _ hs k clen rest fs writable auth _. inr (writable, auth);
  }

  -- A request that changes a file was sent to a server that is not read-only. Its headers were
  -- read, and if the server requires a token, their authorization is "Bearer " and the token,
  -- with nothing but blanks around it.
  pub handle_one_change :
      (renamed : Bool) (bs : Bytes) (fs : Files)
      → ¬ ((handle_one u sha256 renamed cfg bs fs).1 ≡ fs)
      → (cfg.read_only ≡ false)
        × ((hs : Headers) × (rest : Bytes) × (all_headers u (take_line bs).1 ≡ ok (hs, rest))
            × HasToken hs cfg.require_bearer)
  unfolding Outcome
  handle_one_change renamed bs fs changed =
      elim (handle_one-Outcome u sha256 cfg IsPermitted permission_rule renamed bs fs) [
        | inl same ↦ absurd (changed same)
        | inr (hs, rest, read, inl same) ↦ absurd (changed same)
        | inr (hs, rest, read, inr (writable, auth)) ↦
            (writable, (hs, rest, read, auth_ok-HasToken hs cfg.require_bearer auth))
      ]

  -- Every request takes at most one step of a write-once cache: nothing changes, or a blob is
  -- stored under its digest where there was none, or an action that had no mapping gets one,
  -- if ASCII texts are their own bytes.
  pub handle_one-Takes :
      (renamed : Bool) (bs : Bytes) (fs : Files)
      → IsCodec u
      → Step sha256 (view u cfg.root fs) (view u cfg.root (handle_one u sha256 renamed cfg bs fs).1)
  unfolding Outcome
  handle_one-Takes renamed bs fs codec =
      elim (handle_one-Outcome u sha256 cfg (λ _ fs gs. Takes u sha256 cfg fs gs) (step_rule codec)
        renamed bs fs) [
          | inl same ↦ subst (λ (gs : Files). Takes u sha256 cfg fs gs) (sym same) stutter
          | inr (hs, rest, read, step) ↦ step
        ]

  -- If every blob of the server's files is stored under its digest, it is so after any
  -- requests that are served one after the other, if ASCII texts are their own bytes.
  pub serve_all-IsStored :
      (rs : List (Bool × Bytes)) (fs : Files)
      → IsCodec u
      → IsStored sha256 (view u cfg.root fs)
      → IsStored sha256 (view u cfg.root (serve_all u sha256 cfg rs fs))
  unfolding serve_all
  serve_all-IsStored [] fs codec h = h
  serve_all-IsStored ((renamed, bs) ∷ rs) fs codec h =
      serve_all-IsStored rs _ codec
        (Step-IsStored sha256 _ _ (handle_one-Takes renamed bs fs codec) h)

  -- No requests that are served one after the other change or remove a blob or the mapping of
  -- an action, if ASCII texts are their own bytes.
  pub serve_all-Extends :
      (rs : List (Bool × Bytes)) (fs : Files)
      → IsCodec u
      → Extends (view u cfg.root fs) (view u cfg.root (serve_all u sha256 cfg rs fs))
  unfolding serve_all
  serve_all-Extends [] fs codec = Extends-refl _
  serve_all-Extends ((renamed, bs) ∷ rs) fs codec =
      Extends-trans _ _ _ (Step-Extends sha256 _ _ (handle_one-Takes renamed bs fs codec))
        (serve_all-Extends rs _ codec)
