-- ===== src/Remote/Http.antt =====
-- Messages of HTTP as the client and the server print and read them.
use redo.Base.{
  Bool, true, false, ℕ, zero, suc, ◌^◌, true, false, List, [], ◌∷◌, ◌++◌, Text, codes, text_eq, ltb,
  Option, none, some, if◌then◌else◌, ◌==◌, length, take, Result, ok, err, io, out_of_fuel,
  split_once, trim, to_ascii_lowercase, split_whitespace, to_string, parse_unsigned,
}
use redo.Remote.{Bytes, Utf8}

-- `read_line` of a buffered reader: the bytes through the next line feed, and what follows.
unfoldable pub take_line : Bytes → Bytes × Bytes
take_line [] = ([], [])
take_line (b ∷ bs) =
    let (line, rest) = take_line bs in if b == 10 then (10 ∷ [], bs) else (b ∷ line, rest)

abbrev pub crlf : Text
crlf = 13 ∷ 10 ∷ []

-- A hash map from names to values, newest entry first.
abbrev pub Headers : Type 0
Headers = List (Text × Text)

unfoldable pub header : Text → Headers → Option Text
unfolding text_eq
header name [] = none
header name ((n, v) ∷ hs) = let rest = header name hs in if text_eq n name then some v else rest

-- `if let Some((k, v)) = line.split_once(':')`
abbrev pub insert_pair : Option (Text × Text) → Headers → Headers
insert_pair none hs = hs
insert_pair (some (k, v)) hs = (to_ascii_lowercase (trim k), trim v) ∷ hs

unfoldable pub note_header : Text → Headers → Headers
note_header line hs = insert_pair (split_once b':' line) hs

abbrev pub HeadersRead : Type 0
HeadersRead = Result (Headers × Bytes)

abbrev pub Fields : Type 0
Fields = List (Text × Text)

unfoldable pub print_fields : Fields → Text
print_fields [] = []
print_fields ((k, v) ∷ fs) = k ++ (codes ": " ++ (v ++ (crlf ++ print_fields fs)))

abbrev pub length_field : Option Bytes → Text
length_field none = []
length_field (some b) = codes "Content-Length: " ++ (to_string (length b) ++ crlf)

abbrev pub body_of : Option Bytes → Bytes
body_of none = []
body_of (some b) = b

pub record HttpResponse : Type 0 where
  pub status : ℕ
  pub body : Bytes

-- `it.next().unwrap_or(d)`, of the first and of the second word.
abbrev pub first_word : Text → List Text → Text
first_word d [] = d
first_word d (w ∷ ws) = w

abbrev pub second_word : Text → List Text → Text
second_word d [] = d
second_word d (v ∷ ws) = first_word d ws

abbrev pub number_or_zero : Option ℕ → ℕ
number_or_zero none = 0
number_or_zero (some n) = n

unfoldable pub status_of : Text → ℕ
status_of line =
    number_or_zero (parse_unsigned (2 ^ 16) (second_word (codes "0") (split_whitespace line)))

-- The body of a response: as long as the header says, or up to the end.
abbrev pub and_parse : Option Text → Option ℕ
and_parse none = none
and_parse (some s) = parse_unsigned (2 ^ 64) s

unfoldable pub read_body : ℕ → Option ℕ → Bytes → Result HttpResponse
read_body status none rest = ok (record { status = status; body = rest })
read_body status (some n) rest =
    if ltb (length rest) n then err io else ok (record { status = status; body = take n rest })

unfoldable pub after_headers : ℕ → HeadersRead → Result HttpResponse
after_headers status (err e) = err e
after_headers status (ok (hs, rest)) =
    read_body status (and_parse (header (codes "content-length") hs)) rest

module _ (u : Utf8) where
  -- A line that is the end or a header; `more` goes on with the headers so far.
  abbrev pub header_line : (Headers → HeadersRead) → Headers → Bytes → Text → Bool → HeadersRead
  header_line more hs rest line true = ok (hs, rest)
  header_line more hs rest line false = more (note_header line hs)

  unfoldable pub use_line : (Headers → HeadersRead) → Headers → Bytes → Option Text → HeadersRead
  use_line more hs rest none = err io
  use_line more hs rest (some line) = header_line more hs rest line (text_eq line crlf)

  -- The loop that reads headers, up to an empty line or the end, on fuel.
  unfoldable pub read_headers : ℕ → Headers → Bytes → HeadersRead
  read_headers zero hs bs = err out_of_fuel
  read_headers (suc n) hs [] = ok (hs, [])
  read_headers (suc n) hs (b ∷ bs) =
      let (line, rest) = take_line (b ∷ bs) in
      use_line (λ gs. read_headers n gs rest) hs rest (u.decode line)

  -- Each line has a byte.
  unfoldable pub all_headers : Bytes → HeadersRead
  all_headers bs = read_headers (suc (length bs)) [] bs

  -- `write_status` of the server.
  unfoldable pub write_status : ℕ → Text → Bytes → Text → Bytes
  write_status code reason body ctype =
      u.encode (
        codes "HTTP/1.1 "
        ++ (to_string code
            ++ (32
                ∷ (reason
                    ++ (crlf
                        ++ (codes "Content-Length: "
                            ++ (to_string (length body)
                                ++ (crlf
                                    ++ (codes "Content-Type: "
                                        ++ (ctype
                                            ++ (crlf
                                                ++ (codes "Connection: close"
                                                    ++ (crlf ++ crlf)))))))))))))
      ++ body

  -- `write_http_request` of the client.
  unfoldable pub write_http_request : Text → Text → Text → Fields → Option Bytes → Bytes
  write_http_request method host path fields body =
      u.encode (
        method
        ++ (32
            ∷ (path
                ++ (codes " HTTP/1.1"
                    ++ (crlf
                        ++ (codes "Host: "
                            ++ (host
                                ++ (crlf
                                    ++ (codes "Connection: close"
                                        ++ (crlf
                                            ++ (length_field body
                                                ++ (print_fields fields ++ crlf))))))))))))
      ++ body_of body

  unfoldable pub after_status_line : Bytes → Option Text → Result HttpResponse
  after_status_line rest none = err io
  after_status_line rest (some line) = after_headers (status_of line) (all_headers rest)

  unfoldable pub read_http_response : Bytes → Result HttpResponse
  read_http_response bs = let (line, rest) = take_line bs in after_status_line rest (u.decode line)
