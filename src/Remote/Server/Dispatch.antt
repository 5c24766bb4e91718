-- ===== src/Remote/Server/Dispatch.antt =====
-- Where a request for a key goes.
use redo.Base.{
  ◌≡◌, refl, sym, ap, ◌∙◌, Bool, true, false, ◌≢◌, [], ◌∷◌, ◌++◌, Text, codes, text_eq, arith,
  trim_end_by, strip_prefix,
}
use redo.Remote.{Bytes, Utf8}
use redo.Remote.Http.{Headers}
use redo.Remote.Url.{is_slash}
use redo.Remote.Calls.{trim_end_by_kept}
use redo.Remote.Server.{all_hex, is_key, IsKey, auth_ok, Config, Files}
use redo.Remote.Server.Lines.{key_hex}
use redo.Remote.Server.Handlers.{
  handle_get_blob, handle_put_blob, handle_get_action, handle_put_action,
}
use redo.Remote.Server.Serve.{
  content_length, writes_files, trim_slashes, serve_blob, serve_action, serve_blob_or,
  serve_action_or, route, dispatch,
}

hex_kept : (s : Text) → all_hex s ≡ true → trim_end_by is_slash s ≡ s
unfolding trim_end_by
hex_kept [] h = refl
hex_kept (c ∷ s) h =
    let more : all_hex s ≡ true = ground (arith, h) in
    let other : is_slash c ≡ false = ground (arith, h) in
    rw (hex_kept s more) (ground (arith, other))

pub key_ne_nil : (k : Text) → IsKey k → k ≢ []
unfolding is_key
key_ne_nil k h e = let empty : is_key [] ≡ true = sym (ap is_key e) ∙ h in absurd cc

trim_slashes_key : (k : Text) → IsKey k → trim_slashes k ≡ k
unfolding trim_slashes
trim_slashes_key k h = hex_kept k (key_hex k h)

trim_slashes_path : (s k : Text) → IsKey k → trim_slashes (s ++ k) ≡ s ++ k
unfolding trim_slashes
trim_slashes_path s k h = trim_end_by_kept is_slash s k (key_ne_nil k h) (hex_kept k (key_hex k h))

abbrev pub blob_at : Text → Text
blob_at k = codes "/v1/blobs/" ++ k

abbrev pub action_at : Text → Text
action_at k = codes "/v1/actions/" ++ k

module _ (u : Utf8) (sha256 : Bytes → Text) (renamed : Bool) (cfg : Config) (m k : Text)
    (hs : Headers) (rest : Bytes) (fs : Files) (hk : IsKey k) where
  route_blob :
      route u sha256 renamed cfg (record { method = m; path = blob_at k; headers = hs }) rest fs
      ≡ serve_blob u sha256 renamed cfg
          (record { method = m; path = blob_at k; headers = hs })
          rest
          k
          fs
  unfolding route serve_blob_or strip_prefix text_eq
  route_blob = rw (trim_slashes_path (codes "/v1/blobs/") k hk, trim_slashes_key k hk) refl

  route_action :
      route u sha256 renamed cfg (record { method = m; path = action_at k; headers = hs }) rest fs
      ≡ serve_action u renamed cfg
          (record { method = m; path = action_at k; headers = hs })
          rest
          k
          fs
  unfolding route serve_blob_or serve_action_or strip_prefix text_eq
  route_action = rw (trim_slashes_path (codes "/v1/actions/") k hk, trim_slashes_key k hk) refl

module _ (u : Utf8) (sha256 : Bytes → Text) (renamed : Bool) (cfg : Config) (k : Text)
    (hs : Headers) (rest : Bytes) (fs : Files) (hk : IsKey k) where
  dispatch_put :
      (path : Text)
      → cfg.read_only ≡ false
      → auth_ok hs cfg.require_bearer ≡ true
      → dispatch u sha256 renamed cfg
          (record { method = codes "PUT"; path = path; headers = hs })
          rest
          fs
        ≡ route u sha256 renamed cfg
            (record { method = codes "PUT"; path = path; headers = hs })
            rest
            fs
  unfolding dispatch writes_files text_eq
  dispatch_put path hr ha = rw (ha, hr) refl

  pub dispatch_get_blob :
      dispatch u sha256 renamed cfg
        (record { method = codes "GET"; path = blob_at k; headers = hs })
        rest
        fs
      ≡ handle_get_blob u cfg k fs
  unfolding dispatch writes_files serve_blob text_eq
  dispatch_get_blob = route_blob u sha256 renamed cfg (codes "GET") k hs rest fs hk ∙ rw hk refl

  pub dispatch_get_action :
      dispatch u sha256 renamed cfg
        (record { method = codes "GET"; path = action_at k; headers = hs })
        rest
        fs
      ≡ handle_get_action u cfg k fs
  unfolding dispatch writes_files serve_action text_eq
  dispatch_get_action = route_action u sha256 renamed cfg (codes "GET") k hs rest fs hk ∙ rw hk refl

  pub dispatch_put_blob :
      cfg.read_only ≡ false
      → auth_ok hs cfg.require_bearer ≡ true
      → dispatch u sha256 renamed cfg
          (record { method = codes "PUT"; path = blob_at k; headers = hs })
          rest
          fs
        ≡ handle_put_blob u sha256 renamed cfg k (content_length hs) rest fs
  unfolding serve_blob text_eq
  dispatch_put_blob hr ha =
      dispatch_put (blob_at k) hr ha
      ∙ route_blob u sha256 renamed cfg (codes "PUT") k hs rest fs hk
      ∙ rw hk refl

  pub dispatch_put_action :
      cfg.read_only ≡ false
      → auth_ok hs cfg.require_bearer ≡ true
      → dispatch u sha256 renamed cfg
          (record { method = codes "PUT"; path = action_at k; headers = hs })
          rest
          fs
        ≡ handle_put_action u renamed cfg k (content_length hs) rest fs
  unfolding serve_action text_eq
  dispatch_put_action hr ha =
      dispatch_put (action_at k) hr ha
      ∙ route_action u sha256 renamed cfg (codes "PUT") k hs rest fs hk
      ∙ rw hk refl
