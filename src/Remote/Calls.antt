-- ===== src/Remote/Calls.antt =====
-- The server reads the request that the client prints.
use mathlib.Core.List.{append_assoc, append-nil}
use redo.Base.{
  ℕ, ◌≡◌, refl, sym, ap, ◌∙◌, Bool, false, ◌≢◌, List, [], ◌∷◌, ◌++◌, All, Text, codes, Option, none,
  some, arith, length, contains, contains-append, is_empty, has_space, to_string, split_whitespace,
  split_whitespace_word, trim_end_by, trim_end_by-append,
}
use redo.Remote.{Bytes, Utf8, IsAscii, IsCodec}
use redo.Remote.Http.{
  crlf, Fields, print_fields, body_of, write_http_request, first_word, second_word,
}
use redo.Remote.Messages.{take_line_append, IsField, noted}
use redo.Remote.Answers.{all_ascii-IsAscii, append_ascii, all_headers-print_fields}
use redo.Remote.Server.{Config, Files}
use redo.Remote.Server.Serve.{
  is_line_end, request_words, dispatch, with_headers, after_line, handle_one,
}

-- A word of a request line.
pub record IsWord (w : Text) : Type 0 where
  pub some_text : w ≢ []
  pub no_space : has_space w ≡ false
  pub ascii : IsAscii w

pub word-IsLine : (w : Text) → has_space w ≡ false → contains w 10 ≡ false
word-IsLine [] h = refl
word-IsLine (c ∷ w) h = ground (arith, h, word-IsLine w)

is_empty-append : (s t : Text) → t ≢ [] → is_empty (s ++ t) ≡ false
unfolding is_empty
is_empty-append [] [] h = absurd (h refl)
is_empty-append [] (c ∷ t) h = refl
is_empty-append (c ∷ s) t h = refl

pub trim_end_by_kept :
    (p : ℕ → Bool) (s t : Text) → t ≢ [] → trim_end_by p t ≡ t → trim_end_by p (s ++ t) ≡ s ++ t
unfolding trim_end_by is_empty
trim_end_by_kept p [] t n h = h
trim_end_by_kept p (c ∷ s) t n h = rw (trim_end_by_kept p s t n h, is_empty-append s t n) refl

abbrev pub request_line : Text → Text → Text
request_line m path = m ++ (32 ∷ (path ++ codes " HTTP/1.1"))

abbrev pub length_fields : Option Bytes → Fields
length_fields none = []
length_fields (some b) = (codes "Content-Length", to_string (length b)) ∷ []

abbrev pub request_fields : Text → Fields → Option Bytes → Fields
request_fields host fields body =
    (codes "Host", host) ∷ (codes "Connection", codes "close") ∷ (length_fields body ++ fields)

print_fields_ascii : (fs : Fields) → All IsField fs → IsAscii (print_fields fs)
unfolding print_fields
print_fields_ascii [] h = tt
print_fields_ascii ((k, v) ∷ fs) h =
    append_ascii k (codes ": " ++ (v ++ (crlf ++ print_fields fs))) h.0.name_ascii (
      append_ascii (codes ": ") (v ++ (crlf ++ print_fields fs))
        (all_ascii-IsAscii (codes ": ") refl)
        (append_ascii v (crlf ++ print_fields fs) h.0.value_ascii (
          append_ascii crlf (print_fields fs) (all_ascii-IsAscii crlf refl)
            (print_fields_ascii fs h.1))))

request_line_ascii : (m path : Text) → IsWord m → IsWord path → IsAscii (request_line m path)
request_line_ascii m path hm hp = append_ascii m (32 ∷ (path ++ codes " HTTP/1.1")) hm.ascii (
  ground arith,
  append_ascii path (codes " HTTP/1.1") hp.ascii (all_ascii-IsAscii (codes " HTTP/1.1") refl),
)

request_line-IsLine :
    (m path : Text) → IsWord m → IsWord path → contains (request_line m path) 10 ≡ false
request_line-IsLine m path hm hp =
    contains-append m (32 ∷ (path ++ codes " HTTP/1.1")) 10 (word-IsLine m hm.no_space)
      (contains-append path (codes " HTTP/1.1") 10 (word-IsLine path hp.no_space) refl)

request_words_lem :
    (m path : Text)
    → IsWord m
    → IsWord path
    → request_words (request_line m path ++ crlf) ≡ m ∷ path ∷ codes "HTTP/1.1" ∷ []
unfolding request_words trim_end_by split_whitespace
request_words_lem m path hm hp =
    let start = m ++ (32 ∷ path) in
    let version = codes " HTTP/1.1" in
    let whole : request_line m path ≡ start ++ version = sym (append_assoc m (32 ∷ path) version) in
    ap split_whitespace (
      trim_end_by-append is_line_end (request_line m path) crlf refl
      ∙ ap (trim_end_by is_line_end) whole
      ∙ trim_end_by_kept is_line_end start version (λ e. cc) refl
      ∙ sym whole)
    ∙ split_whitespace_word m (path ++ version) hm.some_text hm.no_space
    ∙ ap (λ (ws : List Text). m ∷ ws)
        (split_whitespace_word path (codes "HTTP/1.1") hp.some_text hp.no_space)

abbrev request_head : Text → Text → Text → Fields → Option Bytes → Text
request_head m path host fields body =
    request_line m path ++ (crlf ++ (print_fields (request_fields host fields body) ++ crlf))

request_head_ascii :
    (m path host : Text) (fields : Fields) (body : Option Bytes)
    → IsWord m
    → IsWord path
    → All IsField (request_fields host fields body)
    → IsAscii (request_head m path host fields body)
request_head_ascii m path host fields body hm hp hf =
    let printed = print_fields (request_fields host fields body) in
    append_ascii (request_line m path) (crlf ++ (printed ++ crlf)) (request_line_ascii m path hm hp)
      (append_ascii crlf (printed ++ crlf) (all_ascii-IsAscii crlf refl) (
        append_ascii printed crlf (print_fields_ascii (request_fields host fields body) hf)
          (all_ascii-IsAscii crlf refl)))

abbrev printed_request : Text → Text → Text → Fields → Option Bytes → Bytes
printed_request m path host fields body =
    request_line m path
    ++ (crlf ++ (print_fields (request_fields host fields body) ++ (crlf ++ body_of body)))

module _ (u : Utf8) (codec : IsCodec u) where
  write_http_request_lem :
      (m path host : Text) (fields : Fields) (body : Option Bytes)
      → IsWord m
      → IsWord path
      → All IsField (request_fields host fields body)
      → write_http_request u m host path fields body ≡ printed_request m path host fields body
  unfolding write_http_request print_fields
  write_http_request_lem m path host fields none hm hp hf =
      ap (λ (t : Bytes). t ++ body_of none)
        (ap u.encode (simp append_assoc)
          ∙ codec.encode_ascii (request_head m path host fields none)
              (request_head_ascii m path host fields none hm hp hf))
      ∙ simp (append_assoc, append-nil)
  write_http_request_lem m path host fields (some b) hm hp hf =
      ap (λ (t : Bytes). t ++ body_of (some b))
        (ap u.encode (simp append_assoc)
          ∙ codec.encode_ascii (request_head m path host fields (some b))
              (request_head_ascii m path host fields (some b) hm hp hf))
      ∙ simp append_assoc

  handle_one_line :
      (sha256 : Bytes → Text) (renamed : Bool) (cfg : Config) (s rest : Bytes) (fs : Files)
      → contains s 10 ≡ false
      → IsAscii (s ++ crlf)
      → handle_one u sha256 renamed cfg (s ++ (crlf ++ rest)) fs
        ≡ after_line u sha256 renamed cfg rest fs (some (s ++ crlf))
  unfolding handle_one
  handle_one_line sha256 renamed cfg [] rest fs h a =
      rw (take_line_append [] rest h, codec.decode_ascii crlf a) refl
  handle_one_line sha256 renamed cfg (c ∷ s) rest fs h a =
      rw (take_line_append (c ∷ s) rest h, codec.decode_ascii (c ∷ (s ++ crlf)) a) refl

  -- The server reads the method, the path, the headers and the body that the client sends.
  pub handle_one-write_http_request :
      (sha256 : Bytes → Text) (renamed : Bool) (cfg : Config) (m path host : Text) (fields : Fields)
      (body : Option Bytes) (fs : Files)
      → IsWord m
      → IsWord path
      → All IsField (request_fields host fields body)
      → handle_one u sha256 renamed cfg (write_http_request u m host path fields body) fs
        ≡ dispatch u sha256 renamed cfg
            (record {
              method = m;
              path = path;
              headers = noted (request_fields host fields body) [];
            })
            (body_of body)
            fs
  unfolding after_line with_headers
  handle_one-write_http_request sha256 renamed cfg m path host fields body fs hm hp hf =
      let printed = request_fields host fields body in
      let line = request_line m path in
      ap (λ (bs : Bytes). handle_one u sha256 renamed cfg bs fs)
        (write_http_request_lem m path host fields body hm hp hf)
      ∙ handle_one_line sha256 renamed cfg line (print_fields printed ++ (crlf ++ body_of body)) fs
          (request_line-IsLine m path hm hp)
          (append_ascii line crlf (request_line_ascii m path hm hp) (all_ascii-IsAscii crlf refl))
      ∙ ap (with_headers u sha256 renamed cfg (line ++ crlf) fs)
          (all_headers-print_fields u codec printed (body_of body) hf)
      ∙ ap
          (λ (ws : List Text).
            dispatch u sha256 renamed cfg
              (record {
                method = first_word [] ws;
                path = second_word [] ws;
                headers = noted printed [];
              })
              (body_of body) fs)
          (request_words_lem m path hm hp)
