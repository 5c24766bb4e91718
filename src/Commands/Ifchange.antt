-- ===== src/Commands/Ifchange.antt =====
-- The targets of bins/src/redo_ifchange.rs, from its arguments and from files that list targets.
use redo.Base.{
  ℕ, List, [], ◌∷◌, ◌++◌, Text, codes, text_eq, is_empty, split_on, ◌==◌, Option, none, some,
  if◌then◌else◌, ◌>>=◌, Result, ok, err, bad_text, no_path, io,
}

-- A carriage return at the end of a line is dropped.
unfoldable pub drop_cr : List ℕ → List ℕ
drop_cr [] = []
drop_cr (c ∷ []) = if c == 13 then [] else c ∷ []
drop_cr (c ∷ d ∷ s) = c ∷ drop_cr (d ∷ s)

-- `from_utf8` is the standard library's, and `read_bytes` reads a file or the standard input.
module _ (from_utf8 : List ℕ → Option Text) (read_bytes : Text → Option (List ℕ)) where
  unfoldable pub decode_targets : List (List ℕ) → Result (List Text)
  unfolding is_empty
  decode_targets [] = ok []
  decode_targets (e ∷ es) =
      let rest = decode_targets es in
      if is_empty e
      then rest
      else elim (from_utf8 e) [ none ↦ err bad_text | some t ↦ rest >>= (λ ts. ok (t ∷ ts)) ]

  unfoldable pub without_cr : List (List ℕ) → List (List ℕ)
  unfolding drop_cr
  without_cr [] = []
  without_cr (l ∷ ls) = drop_cr l ∷ without_cr ls

  unfoldable pub parse_newline_separated_targets : List ℕ → Result (List Text)
  unfolding split_on decode_targets without_cr
  parse_newline_separated_targets bytes = decode_targets (without_cr (split_on 10 bytes))

  unfoldable pub parse_nul_separated_targets : List ℕ → Result (List Text)
  unfolding split_on decode_targets
  parse_nul_separated_targets bytes = decode_targets (split_on 0 bytes)

  unfoldable pub read_depfile_bytes : Text → Result (List ℕ)
  read_depfile_bytes path = elim (read_bytes path) [ none ↦ err io | some bytes ↦ ok bytes ]

  -- Targets, and those of the arguments that follow.
  abbrev pub followed_by : Result (List Text) → Result (List Text) → Result (List Text)
  followed_by first rest = first >>= (λ ts. rest >>= (λ us. ok (ts ++ us)))

  unfoldable pub parse_targets : List Text → Result (List Text)
  unfolding text_eq read_depfile_bytes parse_newline_separated_targets parse_nul_separated_targets
  parse_targets [] = ok []
  parse_targets (a ∷ []) =
      if text_eq a (codes "--")
      then ok []
      else if text_eq a (codes "--from-file")
      then err no_path
      else if text_eq a (codes "--from-file0")
      then err no_path
      else ok (a ∷ [])
  parse_targets (a ∷ b ∷ args) =
      let behind = parse_targets args in
      let rest = parse_targets (b ∷ args) in
      if text_eq a (codes "--")
      then ok (b ∷ args)
      else if text_eq a (codes "--from-file")
      then followed_by (read_depfile_bytes b >>= parse_newline_separated_targets) behind
      else if text_eq a (codes "--from-file0")
      then followed_by (read_depfile_bytes b >>= parse_nul_separated_targets) behind
      else followed_by (ok (a ∷ [])) rest
