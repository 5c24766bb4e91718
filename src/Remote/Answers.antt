-- ===== src/Remote/Answers.antt =====
-- The client reads the response that the server prints.
use mathlib.Core.List.{append_assoc}
use redo.Base.{
  ℕ, suc, ◌<◌, ◌≤◌, ◌^◌, ◌≡◌, refl, ap, ◌∙◌, Bool, true, false, ◌&&◌, List, [], ◌∷◌, ◌++◌, All,
  All-append, Text, codes, text_eq, some, arith, ok, ltb, length, length-append, take, contains,
  contains-append, contains-to_string, trim, trim_value, trim_word, to_ascii_lowercase, has_space,
  to_string, to_string_ascii, has_space-to_string, to_string_ne_nil, split_whitespace,
  split_whitespace_word, parse_unsigned-to_string, inl,
}
use redo.Remote.{Bytes, Utf8, IsAscii, IsCodec}
use redo.Remote.Http.{
  crlf, header, Fields, print_fields, all_headers, status_of, read_body, after_headers,
  after_status_line, read_http_response, write_status,
}
use redo.Remote.Messages.{take_line_append, IsField, noted, read_headers-print_fields}

pub take-length {ℓ} : {A : Type ℓ} (xs : List A) → take (length xs) xs ≡ xs
take-length [] = refl
take-length (x ∷ xs) = ap (λ (t : List _). x ∷ t) (take-length xs)

pub length-print_fields :
    (fs : Fields) (rest : Bytes) → length fs ≤ length (print_fields fs ++ rest)
unfolding print_fields
length-print_fields [] rest = ground arith
length-print_fields ((k, v) ∷ fs) rest =
    let printed = print_fields fs in
    omega (
      arith,
      length-append (k ++ (codes ": " ++ (v ++ (crlf ++ printed)))) rest,
      length-append k (codes ": " ++ (v ++ (crlf ++ printed))),
      length-append v (crlf ++ printed),
      length-append printed rest,
      length-print_fields fs rest,
    )

module _ (u : Utf8) (codec : IsCodec u) where
  -- Enough fuel is given for all headers.
  pub all_headers-print_fields :
      (fs : Fields) (rest : Bytes)
      → All IsField fs
      → all_headers u (print_fields fs ++ (crlf ++ rest)) ≡ ok (noted fs [], rest)
  unfolding all_headers
  all_headers-print_fields fs rest w =
      read_headers-print_fields u codec (suc (length (print_fields fs ++ (crlf ++ rest)))) fs []
        rest (omega (arith, length-print_fields fs (crlf ++ rest))) w

-- The fields of a response.
abbrev pub answer_fields : ℕ → Text → Fields
answer_fields n ctype =
    (codes "Content-Length", to_string n)
    ∷ (codes "Content-Type", ctype)
    ∷ (codes "Connection", codes "close")
    ∷ []

abbrev pub status_line : ℕ → Text → Text
status_line code reason = codes "HTTP/1.1 " ++ (to_string code ++ (32 ∷ reason))

-- Texts that a header can hold as they are.
pub record IsValue (v : Text) : Type 0 where
  pub is_line : contains v 10 ≡ false
  pub trimmed : trim (32 ∷ (v ++ crlf)) ≡ v
  pub ascii : IsAscii v

pub word-IsValue : (v : Text) → contains v 10 ≡ false → has_space v ≡ false → IsAscii v → IsValue v
word-IsValue v l h a = record { is_line = l; trimmed = trim_value v h; ascii = a }

pub number-IsValue : (n : ℕ) → IsValue (to_string n)
number-IsValue n =
    word-IsValue (to_string n) (contains-to_string 10 n (inl (omega arith))) (has_space-to_string n)
      (to_string_ascii n)

status_of_lem :
    (code : ℕ) (reason : Text) → code < 2 ^ 16 → status_of (status_line code reason ++ crlf) ≡ code
unfolding status_of
status_of_lem code reason h =
    let tail = to_string code ++ (32 ∷ (reason ++ crlf)) in
    let words : split_whitespace (codes "HTTP/1.1" ++ (32 ∷ tail))
        ≡ codes "HTTP/1.1" ∷ to_string code ∷ split_whitespace (reason ++ crlf) =
      split_whitespace_word (codes "HTTP/1.1") tail (λ e. cc) refl
      ∙ ap (λ (ws : List Text). codes "HTTP/1.1" ∷ ws)
          (split_whitespace_word (to_string code) (reason ++ crlf) (to_string_ne_nil code)
            (has_space-to_string code)) in
    ap (λ (t : Text). status_of t)
      (append_assoc (codes "HTTP/1.1 ") (to_string code ++ (32 ∷ reason)) crlf
        ∙ ap (λ (t : Text). codes "HTTP/1.1 " ++ t)
            (append_assoc (to_string code) (32 ∷ reason) crlf))
    ∙ rw (words, parse_unsigned-to_string (2 ^ 16) code h) refl

-- What the server prints, as a line, fields and the body.
printed_answer : (code : ℕ) (reason : Text) (body : Bytes) (ctype : Text) → Text
printed_answer code reason body ctype =
    status_line code reason
    ++ (crlf ++ (print_fields (answer_fields (length body) ctype) ++ (crlf ++ body)))

-- A text of ASCII characters that is written out.
abbrev pub all_ascii : Text → Bool
all_ascii [] = true
all_ascii (c ∷ s) = ltb c 128 && all_ascii s

pub all_ascii-IsAscii : (s : Text) → all_ascii s ≡ true → IsAscii s
all_ascii-IsAscii [] h = tt
all_ascii-IsAscii (c ∷ s) h = ground (arith, h, all_ascii-IsAscii s)

pub append_ascii : (s t : Text) → IsAscii s → IsAscii t → IsAscii (s ++ t)
append_ascii s t hs ht = All-append (λ (c : ℕ). c < 128) s t hs ht

abbrev answer_end : Text → Text
answer_end ctype = codes "\r\nContent-Type: " ++ (ctype ++ codes "\r\nConnection: close\r\n\r\n")

answer_end_ascii : (ctype : Text) → IsAscii ctype → IsAscii (answer_end ctype)
answer_end_ascii ctype h =
    append_ascii (codes "\r\nContent-Type: ") (ctype ++ codes "\r\nConnection: close\r\n\r\n")
      (all_ascii-IsAscii (codes "\r\nContent-Type: ") refl)
      (append_ascii ctype (codes "\r\nConnection: close\r\n\r\n") h
        (all_ascii-IsAscii (codes "\r\nConnection: close\r\n\r\n") refl))

status_line_ascii : (code : ℕ) (reason : Text) → IsAscii reason → IsAscii (status_line code reason)
status_line_ascii code reason h =
    append_ascii (codes "HTTP/1.1 ") (to_string code ++ (32 ∷ reason))
      (all_ascii-IsAscii (codes "HTTP/1.1 ") refl)
      (append_ascii (to_string code) (32 ∷ reason) (to_string_ascii code) (ground arith, h))

status_line-IsLine :
    (code : ℕ) (reason : Text)
    → contains reason 10 ≡ false
    → contains (status_line code reason) 10 ≡ false
status_line-IsLine code reason h =
    contains-append (to_string code) (32 ∷ reason) 10
      (contains-to_string 10 code (inl (omega arith))) h

abbrev answer_head : ℕ → Text → ℕ → Text → Text
answer_head code reason n ctype =
    status_line code reason ++ (codes "\r\nContent-Length: " ++ (to_string n ++ answer_end ctype))

answer_head_ascii :
    (code : ℕ) (reason : Text) (n : ℕ) (ctype : Text)
    → IsAscii reason
    → IsAscii ctype
    → IsAscii (answer_head code reason n ctype)
answer_head_ascii code reason n ctype hr hc =
    append_ascii (status_line code reason)
      (codes "\r\nContent-Length: " ++ (to_string n ++ answer_end ctype))
      (status_line_ascii code reason hr)
      (append_ascii (codes "\r\nContent-Length: ") (to_string n ++ answer_end ctype)
        (all_ascii-IsAscii (codes "\r\nContent-Length: ") refl)
        (append_ascii (to_string n) (answer_end ctype) (to_string_ascii n)
          (answer_end_ascii ctype hc)))

-- A name that is written out.
pub field :
    (k v : Text)
    → contains k b':' ≡ false
    → contains k 10 ≡ false
    → has_space k ≡ false
    → all_ascii k ≡ true
    → IsValue v
    → IsField (k, v)
field k v c l h a w = record {
  no_colon = c;
  name_is_line = l;
  value_is_line = w.is_line;
  name_trimmed = trim_word k h;
  value_trimmed = w.trimmed;
  name_ascii = all_ascii-IsAscii k a;
  value_ascii = w.ascii;
}

answer_fields-IsField : (n : ℕ) (ctype : Text) → IsValue ctype → All IsField (answer_fields n ctype)
answer_fields-IsField n ctype h = (
  field (codes "Content-Length") (to_string n) refl refl refl refl (number-IsValue n),
  (
    field (codes "Content-Type") ctype refl refl refl refl h,
    (
      field (codes "Connection") (codes "close") refl refl refl refl
          (word-IsValue (codes "close") refl refl (all_ascii-IsAscii (codes "close") refl)),
      tt,
    ),
  ),
)

module _ (u : Utf8) (codec : IsCodec u) where
  write_status_lem :
      (code : ℕ) (reason : Text) (body : Bytes) (ctype : Text)
      → IsAscii reason
      → IsValue ctype
      → write_status u code reason body ctype ≡ printed_answer code reason body ctype
  unfolding write_status printed_answer print_fields
  write_status_lem code reason body ctype hr hc =
      ap (λ (t : Bytes). t ++ body)
        (ap u.encode (simp append_assoc)
          ∙ codec.encode_ascii (answer_head code reason (length body) ctype)
              (answer_head_ascii code reason (length body) ctype hr hc.ascii))
      ∙ simp append_assoc

  read_http_response_line :
      (s rest : Bytes)
      → contains s 10 ≡ false
      → IsAscii (s ++ crlf)
      → read_http_response u (s ++ (crlf ++ rest)) ≡ after_status_line u rest (some (s ++ crlf))
  unfolding read_http_response
  read_http_response_line s rest h a =
      rw (take_line_append s rest h, codec.decode_ascii (s ++ crlf) a) refl

  after_headers_answer :
      (code : ℕ) (body : Bytes) (ctype : Text)
      → length body < 2 ^ 64
      → after_headers code (ok (noted (answer_fields (length body) ctype) [], body))
        ≡ ok (record { status = code; body = body })
  unfolding after_headers header text_eq read_body to_ascii_lowercase
  after_headers_answer code body ctype h =
      let whole : ltb (length body) (length body) ≡ false = ground arith in
      rw (parse_unsigned-to_string (2 ^ 64) (length body) h, whole, take-length body) refl

  -- The client reads the status and the body that the server prints, if the status is below 2
  -- ^ 16, the body has less than 2 ^ 64 bytes, the reason is a line of ASCII characters, the
  -- type is a trimmed line of them, and ASCII texts are their own bytes.
  pub read_http_response-write_status :
      (code : ℕ) (reason : Text) (body : Bytes) (ctype : Text)
      → code < 2 ^ 16
      → length body < 2 ^ 64
      → contains reason 10 ≡ false
      → IsAscii reason
      → IsValue ctype
      → read_http_response u (write_status u code reason body ctype)
        ≡ ok (record { status = code; body = body })
  unfolding printed_answer after_status_line
  read_http_response-write_status code reason body ctype hc hb hl hr ht =
      let line = status_line code reason in
      let fields = answer_fields (length body) ctype in
      ap (read_http_response u) (write_status_lem code reason body ctype hr ht)
      ∙ read_http_response_line line (print_fields fields ++ (crlf ++ body))
          (status_line-IsLine code reason hl)
          (append_ascii line crlf (status_line_ascii code reason hr) (all_ascii-IsAscii crlf refl))
      ∙ ap (λ (n : ℕ). after_headers n (all_headers u (print_fields fields ++ (crlf ++ body))))
          (status_of_lem code reason hc)
      ∙ ap (after_headers code) (
          all_headers-print_fields u codec fields body
            (answer_fields-IsField (length body) ctype ht))
      ∙ after_headers_answer code body ctype hb
