-- ===== src/Plan/Words.antt =====
-- `parse_redo_ifchange_deps` of bins/src/redo.rs: the names that a generated .do file hands to
-- redo-ifchange. `bytes[i] as char` makes a character of each byte.
pub mod Laws
use redo.Base.{
  ℕ, zero, suc, Bool, true, false, ◌||◌, List, [], ◌∷◌, Text, codes, text_eq, is_empty, Option,
  none, some, ◌==◌, if◌then◌else◌, strip_prefix, trim_start, length,
}
use redo.Store.Rows.{is_some}

abbrev pub quote : ℕ
quote = b'"'

abbrev pub backslash : ℕ
backslash = 92

abbrev pub apostrophe : ℕ
apostrophe = 39

-- `is_ws`
abbrev pub is_ws : ℕ → Bool
is_ws b = b == 32 || b == 9 || b == 10 || b == 13

-- A word and the bytes behind it.
abbrev pub Scan : Type 0
Scan = Text × List ℕ

abbrev pub push : ℕ → Scan → Scan
push c (w, rest) = (c ∷ w, rest)

unfoldable pub skip_ws : List ℕ → List ℕ
skip_ws [] = []
skip_ws (c ∷ s) = let rest = skip_ws s in if is_ws c then rest else c ∷ s

-- Behind an apostrophe, up to the next one.
unfoldable pub single_quoted : List ℕ → Scan
single_quoted [] = ([], [])
single_quoted (c ∷ s) =
    let rest = push c (single_quoted s) in if c == apostrophe then ([], s) else rest

-- Behind a quotation mark. A backslash that is the last byte stands for itself.
unfoldable pub double_quoted : List ℕ → Scan
double_quoted [] = ([], [])
double_quoted (c ∷ []) = if c == quote then ([], []) else (c ∷ [], [])
double_quoted (c ∷ d ∷ s) =
    let escaped = push d (double_quoted s) in
    let plain = push c (double_quoted (d ∷ s)) in
    if c == backslash then escaped else if c == quote then ([], d ∷ s) else plain

unfoldable pub unquoted : List ℕ → Scan
unquoted [] = ([], [])
unquoted (c ∷ []) = if is_ws c then ([], c ∷ []) else (c ∷ [], [])
unquoted (c ∷ d ∷ s) =
    let escaped = push d (unquoted s) in
    let plain = push c (unquoted (d ∷ s)) in
    if is_ws c then ([], c ∷ d ∷ s) else if c == backslash then escaped else plain

-- The match on the first byte of a word.
unfoldable pub scan_word : ℕ → List ℕ → Scan
unfolding single_quoted double_quoted unquoted
scan_word c s =
    if c == apostrophe
    then single_quoted s
    else if c == quote
    then double_quoted s
    else unquoted (c ∷ s)

abbrev pub keep_word : Text → Option (List Text) → Option (List Text)
keep_word w none = none
keep_word w (some ws) = some (if is_empty w then ws else w ∷ ws)

-- The loop over the words, on fuel; none if it runs out.
unfoldable pub next_word : (List ℕ → Option (List Text)) → List ℕ → Option (List Text)
unfolding is_empty
next_word more [] = some []
next_word more (c ∷ s) =
    let (w, rest) = scan_word c s in if c == b'#' then some [] else keep_word w (more rest)

unfoldable pub split_words : ℕ → List ℕ → Option (List Text)
unfolding skip_ws
split_words zero s = none
split_words (suc f) s = next_word (split_words f) (skip_ws s)

-- Options are dropped, with the file names of two of them.
unfoldable pub takes_file : Text → Bool
unfolding text_eq
takes_file w = text_eq w (codes "--from-file") || text_eq w (codes "--from-file0")

unfoldable pub drop_options : List Text → List Text
unfolding takes_file strip_prefix
drop_options [] = []
drop_options (w ∷ []) = if takes_file w || is_some (strip_prefix (codes "-") w) then [] else w ∷ []
drop_options (w ∷ v ∷ ws) =
    let behind = drop_options ws in
    let rest = drop_options (v ∷ ws) in
    if takes_file w then behind else if is_some (strip_prefix (codes "-") w) then rest else w ∷ rest

abbrev pub names_of : Option (List Text) → Option (List Text)
names_of none = none
names_of (some ws) = some (drop_options ws)

-- `as_bytes` is the standard library's.
module _ (utf8 : Text → List ℕ) where
  abbrev pub names_behind : Option Text → Option (List Text)
  names_behind none = some []
  names_behind (some s) = names_of (split_words (suc (length (utf8 s))) (utf8 s))

  unfoldable pub parse_redo_ifchange_deps : Text → Option (List Text)
  unfolding trim_start strip_prefix
  parse_redo_ifchange_deps line =
      names_behind (strip_prefix (codes "redo-ifchange") (trim_start line))
