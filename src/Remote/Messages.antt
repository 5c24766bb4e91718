-- ===== src/Remote/Messages.antt =====
-- What is printed as a message of HTTP is read again: lines and headers.
use mathlib.Core.List.{append_assoc}
use redo.Base.{
  ℕ, zero, suc, ◌<◌, ◌≡◌, refl, ap, ◌∙◌, true, false, [], ◌∷◌, ◌++◌, All, All-append, Text, codes,
  text_eq, text_eq_iff, some, arith, ok, ◌==◌, length, contains, contains-append, split_once, trim,
  to_ascii_lowercase,
}
use redo.Remote.{Bytes, Utf8, IsAscii, IsCodec}
use redo.Remote.Http.{
  take_line, crlf, Headers, note_header, Fields, print_fields, HeadersRead, use_line, read_headers,
}

-- The first line of what begins with it.
pub take_line_append :
    (s rest : Bytes) → contains s 10 ≡ false → take_line (s ++ (crlf ++ rest)) ≡ (s ++ crlf, rest)
unfolding take_line
take_line_append [] rest h = refl
take_line_append (c ∷ s) rest h =
    let other : c == 10 ≡ false = ground (arith, h) in
    let more : contains s 10 ≡ false = ground (arith, h) in
    rw (other, take_line_append s rest more) refl

pub split_once_append :
    (sep : ℕ) (k t : Text) → contains k sep ≡ false → split_once sep (k ++ (sep ∷ t)) ≡ some (k, t)
unfolding split_once
split_once_append sep [] t h = ground arith
split_once_append sep (c ∷ k) t h =
    let other : c == sep ≡ false = ground (arith, h) in
    let more : contains k sep ≡ false = ground (arith, h) in
    rw (other, split_once_append sep k t more) refl

-- A header that a line can hold.
pub record IsField (f : Text × Text) : Type 0 where
  pub no_colon : contains f.0 b':' ≡ false
  pub name_is_line : contains f.0 10 ≡ false
  pub value_is_line : contains f.1 10 ≡ false
  pub name_trimmed : trim f.0 ≡ f.0
  pub value_trimmed : trim (32 ∷ (f.1 ++ crlf)) ≡ f.1
  pub name_ascii : IsAscii f.0
  pub value_ascii : IsAscii f.1

-- The fields as they are noted: names in lower case, the last one first.
abbrev pub noted : Fields → Headers → Headers
noted [] hs = hs
noted ((k, v) ∷ fs) hs = noted fs ((to_ascii_lowercase k, v) ∷ hs)

abbrev line_of : Text × Text → Text
line_of f = f.0 ++ (codes ": " ++ f.1)

contains_colon : (k t : Text) → contains (k ++ (b':' ∷ t)) b':' ≡ true
contains_colon [] t = refl
contains_colon (c ∷ k) t = ground (arith, contains_colon k t)

not_crlf : (k t : Text) → text_eq (k ++ (b':' ∷ t)) crlf ≡ false
not_crlf k t = ground (arith, contains_colon k t, text_eq_iff (k ++ (b':' ∷ t)) crlf)

line_not_crlf : (f : Text × Text) → text_eq (line_of f ++ crlf) crlf ≡ false
line_not_crlf f =
    ap (λ (t : Text). text_eq t crlf) (append_assoc f.0 (codes ": " ++ f.1) crlf)
    ∙ not_crlf f.0 (32 ∷ (f.1 ++ crlf))

line_of-IsLine : (f : Text × Text) → IsField f → contains (line_of f) 10 ≡ false
line_of-IsLine f h =
    contains-append f.0 (codes ": " ++ f.1) 10 h.name_is_line (ground (arith, h.value_is_line))

line_of-IsAscii : (f : Text × Text) → IsField f → IsAscii (line_of f ++ crlf)
line_of-IsAscii f h =
    All-append (λ (c : ℕ). c < 128) (line_of f) crlf
      (All-append (λ (c : ℕ). c < 128) f.0 (codes ": " ++ f.1) h.name_ascii
        (ground arith, (ground arith, h.value_ascii)))
      (ground arith, (ground arith, tt))

note_header_lem :
    (f : Text × Text) (hs : Headers)
    → IsField f
    → note_header (line_of f ++ crlf) hs ≡ (to_ascii_lowercase f.0, f.1) ∷ hs
unfolding note_header
note_header_lem f hs h =
    rw
      (
        append_assoc f.0 (codes ": " ++ f.1) crlf,
        split_once_append b':' f.0 (32 ∷ (f.1 ++ crlf)) h.no_colon,
        h.name_trimmed,
        h.value_trimmed,
      )
      refl

print_fields_cons :
    (f : Text × Text) (fs : Fields) (rest : Bytes)
    → print_fields (f ∷ fs) ++ (crlf ++ rest)
      ≡ line_of f ++ (crlf ++ (print_fields fs ++ (crlf ++ rest)))
unfolding print_fields
print_fields_cons f fs rest = simp append_assoc

module _ (u : Utf8) (codec : IsCodec u) where
  read_headers_line :
      (n : ℕ) (hs : Headers) (s rest : Bytes)
      → contains s 10 ≡ false
      → IsAscii (s ++ crlf)
      → read_headers u (suc n) hs (s ++ (crlf ++ rest))
        ≡ use_line u (λ gs. read_headers u n gs rest) hs rest (some (s ++ crlf))
  unfolding read_headers
  read_headers_line n hs [] rest h a =
      rw (take_line_append [] rest h, codec.decode_ascii crlf a) refl
  read_headers_line n hs (c ∷ s) rest h a =
      rw (take_line_append (c ∷ s) rest h, codec.decode_ascii (c ∷ (s ++ crlf)) a) refl

  use_empty :
      (more : Headers → HeadersRead) (hs : Headers) (rest : Bytes)
      → use_line u more hs rest (some crlf) ≡ ok (hs, rest)
  unfolding use_line text_eq
  use_empty more hs rest = refl

  use_header :
      (more : Headers → HeadersRead) (line : Text) (hs gs : Headers) (rest : Bytes)
      → text_eq line crlf ≡ false
      → note_header line hs ≡ gs
      → use_line u more hs rest (some line) ≡ more gs
  unfolding use_line
  use_header more line hs gs rest h e = rw (h, e) refl

  use_field :
      (more : Headers → HeadersRead) (f : Text × Text) (hs : Headers) (rest : Bytes)
      → IsField f
      → use_line u more hs rest (some (line_of f ++ crlf))
        ≡ more ((to_ascii_lowercase f.0, f.1) ∷ hs)
  use_field more f hs rest h =
      use_header more (line_of f ++ crlf) hs ((to_ascii_lowercase f.0, f.1) ∷ hs) rest
        (line_not_crlf f) (note_header_lem f hs h)

  -- The printed fields are the headers that are read.
  pub read_headers-print_fields :
      (n : ℕ) (fs : Fields) (hs : Headers) (rest : Bytes)
      → length fs < n
      → All IsField fs
      → read_headers u n hs (print_fields fs ++ (crlf ++ rest)) ≡ ok (noted fs hs, rest)
  unfolding print_fields
  read_headers-print_fields zero fs hs rest h w = ground arith
  read_headers-print_fields (suc n) [] hs rest h w =
      read_headers_line n hs [] rest refl (ground arith, (ground arith, tt))
      ∙ use_empty (λ gs. read_headers u n gs rest) hs rest
  read_headers-print_fields (suc n) (f ∷ fs) hs rest h w =
      ap (read_headers u (suc n) hs) (print_fields_cons f fs rest)
      ∙ read_headers_line n hs (line_of f) (print_fields fs ++ (crlf ++ rest))
          (line_of-IsLine f w.0) (line_of-IsAscii f w.0)
      ∙ use_field (λ gs. read_headers u n gs (print_fields fs ++ (crlf ++ rest))) f hs
          (print_fields fs ++ (crlf ++ rest)) w.0
      ∙ read_headers-print_fields n fs ((to_ascii_lowercase f.0, f.1) ∷ hs) rest (ground (arith, h))
          w.1
