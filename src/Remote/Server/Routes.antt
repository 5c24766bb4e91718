-- ===== src/Remote/Server/Routes.antt =====
-- A rule for what `handle_one` does to the files: it holds if it holds for the two uploads that are
-- let through.
use redo.Base.{
  ltb, ◌*◌, ℕ, ◌≡◌, refl, Bool, true, false, not, ◌&&◌, [], ◌∷◌, Text, codes, text_eq, Option, none,
  some, if◌then◌else◌, arith, Result, ok, err, ◌⊎◌, inl, inr, Bool-cases, strip_prefix,
}
use redo.Remote.{Bytes, Utf8}
use redo.Remote.Http.{Headers, take_line, HeadersRead, all_headers}
use redo.Remote.Server.{IsKey, is_key, auth_ok, Config, Files, Reply}
use redo.Remote.Server.Handlers.{
  handle_post_exec, handle_get_blob, handle_get_action, handle_put_blob, handle_put_action,
}
use redo.Remote.Server.Serve.{
  Request, content_length, writes_files, trim_slashes, not_allowed, by_method, serve_exec,
  serve_blob, serve_action, serve_blob_or, serve_action_or, route, dispatch, with_headers,
  after_line, handle_one,
}

-- What may happen to the files, given the headers of the request.
pub record IsRule (u : Utf8) (sha256 : Bytes → Text) (cfg : Config)
    (R : Headers → Files → Files → Type 0) : Type 0 where
  pub stays : (hs : Headers) (fs : Files) → R hs fs fs
  pub puts_blob :
      (renamed : Bool) (hs : Headers) (k : Text) (clen : ℕ) (rest : Bytes) (fs : Files)
      → cfg.read_only ≡ false
      → auth_ok hs cfg.require_bearer ≡ true
      → IsKey k
      → R hs fs (handle_put_blob u sha256 renamed cfg k clen rest fs).1
  pub puts_action :
      (renamed : Bool) (hs : Headers) (k : Text) (clen : ℕ) (rest : Bytes) (fs : Files)
      → cfg.read_only ≡ false
      → auth_ok hs cfg.require_bearer ≡ true
      → IsKey k
      → R hs fs (handle_put_action u renamed cfg k clen rest fs).1

-- A PUT is let through.
abbrev pub IsAllowed : Config → Request → Type 0
IsAllowed cfg q =
    text_eq q.method (codes "PUT") ≡ true
    → (cfg.read_only ≡ false) × (auth_ok q.headers cfg.require_bearer ≡ true)

module _ (u : Utf8) (sha256 : Bytes → Text) (cfg : Config) (R : Headers → Files → Files → Type 0)
    (rule : IsRule u sha256 cfg R) where
  unfoldable TakesTo : Headers → Files → Reply → Type 0
  TakesTo hs fs r = R hs fs r.1

  unchanged : (hs : Headers) (fs : Files) (r : Result Bytes) → TakesTo hs fs (r, fs)
  unfolding TakesTo
  unchanged hs fs r = rule.stays hs fs

  if-Takes :
      (b : Bool) (hs : Headers) (fs : Files) (r s : Reply)
      → (b ≡ true → TakesTo hs fs r)
      → (b ≡ false → TakesTo hs fs s)
      → TakesTo hs fs (if b then r else s)
  if-Takes true hs fs r s h k = h refl
  if-Takes false hs fs r s h k = k refl

  serve_exec-Takes : (q : Request) (fs : Files) → TakesTo q.headers fs (serve_exec u cfg q fs)
  unfolding serve_exec handle_post_exec
  serve_exec-Takes q fs =
      if-Takes (text_eq q.method (codes "POST")) q.headers fs _ _
        (λ _.
          if-Takes (not cfg.enable_exec) q.headers fs _ _ (λ _. unchanged q.headers fs _)
            (λ _.
              if-Takes (ltb (50 * 1024 * 1024) (content_length q.headers)) q.headers fs _ _
                (λ _. unchanged q.headers fs _) (λ _. unchanged q.headers fs _)))
        (λ _. unchanged q.headers fs _)

  by_method-Takes :
      (m : Text) (hs : Headers) (fs : Files) (get put : Reply) (other : Result Bytes)
      → TakesTo hs fs get
      → (text_eq m (codes "PUT") ≡ true → TakesTo hs fs put)
      → TakesTo hs fs (by_method m get put (other, fs))
  by_method-Takes m hs fs get put other hg hp =
      if-Takes (text_eq m (codes "GET")) hs fs get _ (λ _. hg)
        (λ _.
          if-Takes (text_eq m (codes "PUT")) hs fs put (other, fs) hp (λ _. unchanged hs fs other))

  serve_blob-Takes :
      (renamed : Bool) (q : Request) (rest : Bytes) (key : Text) (fs : Files)
      → IsAllowed cfg q
      → TakesTo q.headers fs (serve_blob u sha256 renamed cfg q rest key fs)
  unfolding serve_blob handle_get_blob TakesTo
  serve_blob-Takes renamed q rest key fs allowed = elim (Bool-cases (is_key key)) [
    | inr wrong ↦ rw wrong (rule.stays q.headers fs)
    | inl hk ↦ rw hk (
        by_method-Takes q.method q.headers fs _ _ (ok (not_allowed u)) (rule.stays q.headers fs)
          (λ p.
            rule.puts_blob renamed q.headers key (content_length q.headers) rest fs (allowed p).0
              (allowed p).1 hk))
  ]

  serve_action-Takes :
      (renamed : Bool) (q : Request) (rest : Bytes) (key : Text) (fs : Files)
      → IsAllowed cfg q
      → TakesTo q.headers fs (serve_action u renamed cfg q rest key fs)
  unfolding serve_action handle_get_action TakesTo
  serve_action-Takes renamed q rest key fs allowed = elim (Bool-cases (is_key key)) [
    | inr wrong ↦ rw wrong (rule.stays q.headers fs)
    | inl hk ↦ rw hk (
        by_method-Takes q.method q.headers fs _ _ (ok (not_allowed u)) (rule.stays q.headers fs)
          (λ p.
            rule.puts_action renamed q.headers key (content_length q.headers) rest fs (allowed p).0
              (allowed p).1 hk))
  ]

  serve_action_or-Takes :
      (renamed : Bool) (q : Request) (rest : Bytes) (fs : Files) (o : Option Text)
      → IsAllowed cfg q
      → TakesTo q.headers fs (serve_action_or u renamed cfg q rest fs o)
  unfolding serve_action_or
  serve_action_or-Takes renamed q rest fs none allowed = unchanged q.headers fs _
  serve_action_or-Takes renamed q rest fs (some key) allowed =
      serve_action-Takes renamed q rest (trim_slashes key) fs allowed

  serve_blob_or-Takes :
      (renamed : Bool) (q : Request) (rest : Bytes) (fs : Files) (o : Option Text)
      → IsAllowed cfg q
      → TakesTo q.headers fs (serve_blob_or u sha256 renamed cfg q rest fs o)
  unfolding serve_blob_or
  serve_blob_or-Takes renamed q rest fs none allowed =
      serve_action_or-Takes renamed q rest fs (strip_prefix (codes "/v1/actions/") q.path) allowed
  serve_blob_or-Takes renamed q rest fs (some key) allowed =
      serve_blob-Takes renamed q rest (trim_slashes key) fs allowed

  route-Takes :
      (renamed : Bool) (q : Request) (rest : Bytes) (fs : Files)
      → IsAllowed cfg q
      → TakesTo q.headers fs (route u sha256 renamed cfg q rest fs)
  unfolding route
  route-Takes renamed q rest fs allowed =
      if-Takes (text_eq (trim_slashes q.path) (codes "/v1/exec")) q.headers fs _ _
        (λ _. serve_exec-Takes q fs)
        (λ _.
          serve_blob_or-Takes renamed q rest fs (strip_prefix (codes "/v1/blobs/") q.path) allowed)

  allowed_lem :
      (q : Request)
      → writes_files q.method && cfg.read_only ≡ false
      → writes_files q.method && not (auth_ok q.headers cfg.require_bearer) ≡ false
      → IsAllowed cfg q
  unfolding writes_files
  allowed_lem q h k p = (ground (arith, h, p), ground (arith, k, p))

  dispatch-Takes :
      (renamed : Bool) (q : Request) (rest : Bytes) (fs : Files)
      → TakesTo q.headers fs (dispatch u sha256 renamed cfg q rest fs)
  unfolding dispatch
  dispatch-Takes renamed q rest fs =
      if-Takes (writes_files q.method && cfg.read_only) q.headers fs _ _
        (λ _. unchanged q.headers fs _)
        (λ h.
          if-Takes (writes_files q.method && not (auth_ok q.headers cfg.require_bearer)) q.headers
            fs _ _ (λ _. unchanged q.headers fs _)
            (λ k. route-Takes renamed q rest fs (allowed_lem q h k)))

  -- A request changes nothing, or its headers are read and the rule holds for them.
  unfoldable pub Outcome : Bytes → Files → Files → Type 0
  Outcome bs fs gs =
      (gs ≡ fs)
      ⊎ ((hs : Headers) × (rest : Bytes) × (all_headers u (take_line bs).1 ≡ ok (hs, rest))
          × R hs fs gs)

  with_headers-Outcome :
      (renamed : Bool) (line : Text) (bs : Bytes) (fs : Files) (r : HeadersRead)
      → all_headers u (take_line bs).1 ≡ r
      → Outcome bs fs (with_headers u sha256 renamed cfg line fs r).1
  unfolding with_headers Outcome TakesTo
  with_headers-Outcome renamed line bs fs (err e) h = inl refl
  with_headers-Outcome renamed line bs fs (ok (hs, rest)) h =
      inr (hs, rest, h, dispatch-Takes renamed _ rest fs)

  after_line-Outcome :
      (renamed : Bool) (bs : Bytes) (fs : Files) (o : Option Text)
      → Outcome bs fs (after_line u sha256 renamed cfg (take_line bs).1 fs o).1
  unfolding after_line Outcome
  after_line-Outcome renamed bs fs none = inl refl
  after_line-Outcome renamed bs fs (some line) =
      with_headers-Outcome renamed line bs fs (all_headers u (take_line bs).1) refl

  pub handle_one-Outcome :
      (renamed : Bool) (bs : Bytes) (fs : Files)
      → Outcome bs fs (handle_one u sha256 renamed cfg bs fs).1
  unfolding handle_one Outcome
  handle_one-Outcome renamed [] fs = inl refl
  handle_one-Outcome renamed (b ∷ bs) fs =
      after_line-Outcome renamed (b ∷ bs) fs (u.decode (take_line (b ∷ bs)).0)
