-- ===== src/Remote/Fuel.antt =====
-- The turns that the loop over header lines is given are enough.
use redo.Base.{
  ℕ, zero, suc, ◌≡◌, ◌<◌, ◌≤◌, Bool, true, false, [], ◌∷◌, Text, text_eq, Option, none, some, ◌==◌,
  length, err, out_of_fuel, arith, Bool-cases, inl, inr,
}
use redo.Remote.{Bytes, Utf8}
use redo.Remote.Http.{
  take_line, crlf, Headers, HeadersRead, note_header, header_line, use_line, read_headers,
  all_headers,
}

length-take_line_all : (bs : Bytes) → length (take_line bs).1 ≤ length bs
unfolding take_line
length-take_line_all [] = omega arith
length-take_line_all (b ∷ bs) = elim (Bool-cases (b == 10)) [
  | inl last ↦ rw last (omega arith)
  | inr more ↦ rw more (omega (arith, length-take_line_all bs))
]

pub length-take_line : (b : ℕ) (bs : Bytes) → length (take_line (b ∷ bs)).1 ≤ length bs
unfolding take_line
length-take_line b bs = elim (Bool-cases (b == 10)) [
  | inl last ↦ rw last (omega arith)
  | inr more ↦ rw more (length-take_line_all bs)
]

module _ (u : Utf8) where
  header_line_ends :
      (more : Headers → HeadersRead) (hs : Headers) (rest : Bytes) (line : Text) (t : Bool)
      → ((gs : Headers) → ¬ (more gs ≡ err out_of_fuel))
      → ¬ (header_line u more hs rest line t ≡ err out_of_fuel)
  header_line_ends more hs rest line true h e = cc
  header_line_ends more hs rest line false h e = h (note_header line hs) e

  use_line_ends :
      (more : Headers → HeadersRead) (hs : Headers) (rest : Bytes) (o : Option Text)
      → ((gs : Headers) → ¬ (more gs ≡ err out_of_fuel))
      → ¬ (use_line u more hs rest o ≡ err out_of_fuel)
  unfolding use_line
  use_line_ends more hs rest none h e = cc
  use_line_ends more hs rest (some line) h e =
      header_line_ends more hs rest line (text_eq line crlf) h e

  read_headers_ends :
      (n : ℕ) (hs : Headers) (bs : Bytes)
      → length bs < n
      → ¬ (read_headers u n hs bs ≡ err out_of_fuel)
  unfolding read_headers
  read_headers_ends zero hs bs h e = omega (arith, h)
  read_headers_ends (suc n) hs [] h e = cc
  read_headers_ends (suc n) hs (b ∷ bs) h e =
      use_line_ends (λ gs. read_headers u n gs (take_line (b ∷ bs)).1) hs (take_line (b ∷ bs)).1
        (u.decode (take_line (b ∷ bs)).0)
        (λ gs.
          read_headers_ends n gs (take_line (b ∷ bs)).1 (omega (arith, h, length-take_line b bs)))
        e

  -- The loop over the header lines of a request or a response ends within the turns that it is
  -- given.
  pub all_headers_ends : (bs : Bytes) → ¬ (all_headers u bs ≡ err out_of_fuel)
  unfolding all_headers
  all_headers_ends bs = read_headers_ends (suc (length bs)) [] bs (omega arith)
