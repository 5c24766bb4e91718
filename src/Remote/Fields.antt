-- ===== src/Remote/Fields.antt =====
-- The header fields that the client sends and what the server finds in them.
use redo.Base.{
  ◌<◌, ◌^◌, ◌≡◌, refl, ap, ◌∙◌, true, [], ◌∷◌, ◌++◌, All, Text, codes, text_eq, text_eq_refl,
  Option, none, some, length, contains-append, is_whitespace, to_ascii_lowercase, trim, trim_led,
  trim_end, trim_end_word, trim_end_by, trim_end_by-append, trim_start, trim_start_by,
  parse_unsigned-to_string,
}
use redo.Remote.{Bytes}
use redo.Remote.Http.{crlf, header, Fields}
use redo.Remote.Messages.{IsField, noted}
use redo.Remote.Answers.{
  IsValue, field, word-IsValue, number-IsValue, all_ascii-IsAscii, append_ascii,
}
use redo.Remote.Client.{auth_field}
use redo.Remote.Calls.{IsWord, word-IsLine, trim_end_by_kept, length_fields, request_fields}
use redo.Remote.Server.{auth_ok}
use redo.Remote.Server.Serve.{content_length}

abbrev bearer : Text → Text
bearer t = codes "Bearer " ++ t

trim_end-bearer : (t : Text) → IsWord t → trim_end (bearer t) ≡ bearer t
unfolding trim_end
trim_end-bearer t h =
    trim_end_by_kept is_whitespace (codes "Bearer ") t h.some_text (trim_end_word t h.no_space)

trim-bearer : (t : Text) → IsWord t → trim (bearer t) ≡ bearer t
unfolding trim trim_start trim_start_by
trim-bearer t h = ap trim_start (trim_end-bearer t h)

bearer-IsValue : (t : Text) → IsWord t → IsValue (bearer t)
unfolding trim_end trim_start trim_start_by trim_end_by
bearer-IsValue t h = record {
  is_line = contains-append (codes "Bearer ") t 10 refl (word-IsLine t h.no_space);
  trimmed =
      trim_led (bearer t) (bearer t ++ crlf)
        (trim_end_by-append is_whitespace (bearer t) crlf refl ∙ trim_end-bearer t h) refl;
  ascii = append_ascii (codes "Bearer ") t (all_ascii-IsAscii (codes "Bearer ") refl) h.ascii;
}

-- A token is a word.
abbrev pub IsToken : Option Text → Type 0
IsToken none = Unit
IsToken (some t) = IsWord t

abbrev pub sent : Text → Option Text → Fields → Option Bytes → Fields
sent host token extra body = request_fields host (auth_field token ++ extra) body

auth_field-IsField :
    (token : Option Text) (extra : Fields)
    → IsToken token
    → All IsField extra
    → All IsField (auth_field token ++ extra)
auth_field-IsField none extra h w = w
auth_field-IsField (some t) extra h w =
    (field (codes "Authorization") (bearer t) refl refl refl refl (bearer-IsValue t h), w)

length_fields-IsField :
    (body : Option Bytes) (fs : Fields) → All IsField fs → All IsField (length_fields body ++ fs)
length_fields-IsField none fs w = w
length_fields-IsField (some b) fs w =
    (field (codes "Content-Length") _ refl refl refl refl (number-IsValue (length b)), w)

pub sent-IsField :
    (host : Text) (token : Option Text) (extra : Fields) (body : Option Bytes)
    → IsValue host
    → IsToken token
    → All IsField extra
    → All IsField (sent host token extra body)
sent-IsField host token extra body hh ht w = (
  field (codes "Host") host refl refl refl refl hh,
  (
    field (codes "Connection") (codes "close") refl refl refl refl
        (word-IsValue (codes "close") refl refl (all_ascii-IsAscii (codes "close") refl)),
    length_fields-IsField body (auth_field token ++ extra) (auth_field-IsField token extra ht w),
  ),
)

abbrev pub typed : Text → Fields
typed ctype = (codes "Content-Type", ctype) ∷ []

-- The server that asks for the token of the client finds it.
pub auth_ok-sent :
    (host : Text) (token : Option Text) (ctype : Text) (b : Bytes)
    → IsToken token
    → auth_ok (noted (sent host token (typed ctype) (some b)) []) token ≡ true
unfolding auth_ok header text_eq to_ascii_lowercase
auth_ok-sent host none ctype b h = refl
auth_ok-sent host (some t) ctype b h = rw (trim-bearer t h) (text_eq_refl (bearer t))

-- And it finds the length of the body.
pub content_length-sent :
    (host : Text) (token : Option Text) (ctype : Text) (b : Bytes)
    → length b < 2 ^ 64
    → content_length (noted (sent host token (typed ctype) (some b)) []) ≡ length b
unfolding content_length header text_eq to_ascii_lowercase
content_length-sent host none ctype b h = rw (parse_unsigned-to_string (2 ^ 64) (length b) h) refl
content_length-sent host (some t) ctype b h =
    rw (parse_unsigned-to_string (2 ^ 64) (length b) h) refl
