-- ===== src/Remote/Server/Refines.antt =====
-- The handlers of the server take steps of the cache that Server/Spec describes.
use redo.Base.{
  codes, ℕ, ◌≡◌, ap, ◌∙◌, subst, Bool, true, false, [], ◌∷◌, ◌++◌, All-append, Text, text_eq,
  text_eq_iff, none, some, if◌then◌else◌, arith, Result, ok, err, io, Option-cases, ltb, length,
  inl, inr, Bool-cases, ◌<◌, take,
}
use redo.Remote.{Bytes, Utf8, IsAscii, IsCodec}
use redo.Remote.Server.{
  IsKey, is_key, is_hex, all_hex, Config, blob_path, action_path, Files, read_file, file_exists,
  Reply,
}
use redo.Remote.Server.Handlers.{
  ok_reply, bad_request, same_or_conflict, as_text, handle_put_blob, handle_put_action,
  check_action, finish_action, Checked, replied, to_write, against, requested,
}
use redo.Remote.Server.Spec.{Step, stutter, stores, map_action}
use redo.Remote.Server.Views.{view, view_blob, view_action}

-- Digits and a line feed are ASCII.
pub all_hex-IsAscii : (s : Text) → all_hex s ≡ true → IsAscii s
all_hex-IsAscii [] h = tt
all_hex-IsAscii (c ∷ s) h = ground (arith, all_hex-IsAscii s)

pub key_line-IsAscii : (m : Text) → IsKey m → IsAscii (m ++ (10 ∷ []))
unfolding is_key is_hex
key_line-IsAscii m h =
    All-append (λ (c : ℕ). c < 128) m (10 ∷ []) (all_hex-IsAscii m (ground (arith, h)))
      (ground arith)

module _ (u : Utf8) (sha256 : Bytes → Text) (cfg : Config) where
  -- From the files before to the files behind.
  abbrev pub Takes : Files → Files → Type 0
  Takes fs gs = Step sha256 (view u cfg.root fs) (view u cfg.root gs)

  no_blob :
      (k : Text) (fs : Files)
      → IsKey k
      → file_exists (blob_path cfg.root k) fs ≡ false
      → (view u cfg.root fs).blobs k ≡ none
  unfolding view file_exists
  no_blob k fs hk h = rw hk (ground (arith, h))

  put_blob_step :
      (k : Text) (b : Bytes) (fs : Files)
      → IsKey k
      → sha256 b ≡ k
      → file_exists (blob_path cfg.root k) fs ≡ false
      → Takes fs ((blob_path cfg.root k, b) ∷ fs)
  put_blob_step k b fs hk e h =
      subst (Step sha256 (view u cfg.root fs)) (view_blob u cfg.root k b fs hk)
        (stores k b hk e (no_blob k fs hk h))

  abbrev stored_reply : Bool → Text → Bytes → Files → Reply
  stored_reply renamed k b fs =
      if renamed then (ok (ok_reply u), (blob_path cfg.root k, b) ∷ fs) else (err io, fs)

  stored_or_not :
      (renamed : Bool) (k : Text) (b : Bytes) (fs : Files)
      → Takes fs ((blob_path cfg.root k, b) ∷ fs)
      → Takes fs (stored_reply renamed k b fs).1
  stored_or_not true k b fs h = h
  stored_or_not false k b fs h = stutter

  pub handle_put_blob-Takes :
      (renamed : Bool) (k : Text) (clen : ℕ) (rest : Bytes) (fs : Files)
      → IsKey k
      → Takes fs (handle_put_blob u sha256 renamed cfg k clen rest fs).1
  unfolding handle_put_blob
  handle_put_blob-Takes renamed k clen rest fs hk =
      elim (Bool-cases (text_eq (sha256 (take clen rest)) k)) [
        | inr wrong ↦ rw wrong stutter
        | inl right ↦ elim (Bool-cases (file_exists (blob_path cfg.root k) fs)) [
          | inl there ↦ rw (right, there) stutter
          | inr new ↦
              let written =
                put_blob_step k (take clen rest) fs hk
                  ((text_eq_iff (sha256 (take clen rest)) k).0 right) new in
              rw (right, new) (stored_or_not renamed k (take clen rest) fs written)
        ]
      ]

  no_action :
      (k : Text) (fs : Files)
      → as_text u (read_file (action_path cfg.root k) fs) ≡ none
      → (view u cfg.root fs).actions k ≡ none
  unfolding view
  no_action k fs h = ground (arith, h)

  put_action_step :
      (k m : Text) (fs : Files)
      → IsCodec u
      → IsKey k
      → IsKey m
      → as_text u (read_file (action_path cfg.root k) fs) ≡ none
      → Takes fs ((action_path cfg.root k, u.encode (m ++ (10 ∷ []))) ∷ fs)
  put_action_step k m fs codec hk hm h =
      let line = key_line-IsAscii m hm in
      let e : u.decode (u.encode (m ++ (10 ∷ []))) ≡ some (m ++ (10 ∷ [])) =
        ap u.decode (codec.encode_ascii (m ++ (10 ∷ [])) line)
        ∙ codec.decode_ascii (m ++ (10 ∷ [])) line in
      subst (Step sha256 (view u cfg.root fs))
        (view_action u cfg.root k (m ++ (10 ∷ [])) (u.encode (m ++ (10 ∷ []))) fs hk e)
        (map_action k m hk hm (no_action k fs h))

  -- A mapping is written only if there is none.
  data IsFree (k : Text) (fs : Files) : Checked → Type 0 where
    answers : (r : Result Bytes) → IsFree k fs (replied r)
    free :
        (m : Text)
        → IsKey m
        → as_text u (read_file (action_path cfg.root k) fs) ≡ none
        → IsFree k fs (to_write m)

  against-IsFree :
      (k m : Text) (fs : Files)
      → IsKey m
      → IsFree k fs (against u m (as_text u (read_file (action_path cfg.root k) fs)))
  unfolding against
  against-IsFree k m fs hm =
      elim (Option-cases (as_text u (read_file (action_path cfg.root k) fs))) [
        | inl nothing ↦ rw nothing (free m hm nothing)
        | inr (s, there) ↦ rw there (answers (ok (same_or_conflict u m s)))
      ]

  check_action-IsFree :
      (k : Text) (clen : ℕ) (rest : Bytes) (fs : Files)
      → IsFree k fs (check_action u cfg k clen rest fs)
  unfolding check_action
  check_action-IsFree k clen rest fs = elim (Bool-cases (ltb (length rest) clen)) [
    | inl short ↦ rw short (answers (err io))
    | inr long ↦ elim (Bool-cases (is_key (requested u (take clen rest)))) [
      | inr wrong ↦
          rw (long, wrong) (answers (ok (bad_request u (codes "invalid_manifest_sha256\n"))))
      | inl right ↦ rw (long, right) (against-IsFree k (requested u (take clen rest)) fs right)
    ]
  ]

  finish_action-Takes :
      (renamed : Bool) (k : Text) (fs : Files) (c : Checked)
      → IsCodec u
      → IsKey k
      → IsFree k fs c
      → Takes fs (finish_action u renamed cfg k c fs).1
  unfolding finish_action
  finish_action-Takes renamed k fs _ codec hk (answers r) = stutter
  finish_action-Takes true k fs _ codec hk (free m hm h) = put_action_step k m fs codec hk hm h
  finish_action-Takes false k fs _ codec hk (free m hm h) =
      elim (Bool-cases (file_exists (action_path cfg.root k) fs)) [
        | inl there ↦ rw there stutter
        | inr missing ↦ rw missing stutter
      ]

  pub handle_put_action-Takes :
      (renamed : Bool) (k : Text) (clen : ℕ) (rest : Bytes) (fs : Files)
      → IsCodec u
      → IsKey k
      → Takes fs (handle_put_action u renamed cfg k clen rest fs).1
  unfolding handle_put_action
  handle_put_action-Takes renamed k clen rest fs codec hk =
      finish_action-Takes renamed k fs (check_action u cfg k clen rest fs) codec hk
        (check_action-IsFree k clen rest fs)
