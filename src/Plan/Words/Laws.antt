-- ===== src/Plan/Words/Laws.antt =====
-- Names that are quoted for a shell are read back by `parse_redo_ifchange_deps`, and its loop ends.
use redo.Base.{
  ℕ, zero, suc, ◌≤◌, ◌<◌, true, false, ◌||◌, List, [], ◌∷◌, ◌++◌, Text, codes, Option, none, some,
  ◌==◌, if◌then◌else◌, ◌≡◌, ◌≢◌, refl, ap, ◌∙◌, inl, inr, arith, length, All, length-append,
  text_eq, Bool-cases, strip_prefix, Option-cases, trim_start,
}
use redo.Plan.Words.{
  quote, backslash, is_ws, push, skip_ws, single_quoted, double_quoted, unquoted, scan_word,
  keep_word, next_word, split_words, takes_file, drop_options, names_of, parse_redo_ifchange_deps,
}

-- A name between quotation marks: the marks and the backslashes in it are escaped.
unfoldable pub escape : Text → Text
escape [] = []
escape (c ∷ s) =
    let rest = escape s in if c == quote || c == backslash then backslash ∷ (c ∷ rest) else c ∷ rest

unfoldable pub print_names : List Text → Text
unfolding escape
print_names [] = []
print_names (w ∷ ws) = 32 ∷ (quote ∷ (escape w ++ (quote ∷ print_names ws)))

-- A line of a .do file that asks for names.
unfoldable pub print_line : List Text → Text
unfolding print_names
print_line ws = codes "redo-ifchange" ++ print_names ws

-- A name that is no option.
pub record IsName (w : Text) : Type 0 where
  pub some_text : w ≢ []
  pub no_option : strip_prefix (codes "-") w ≡ none

double_plain :
    (c : ℕ) (s : List ℕ)
    → s ≢ []
    → (c == quote || c == backslash) ≡ false
    → double_quoted (c ∷ s) ≡ push c (double_quoted s)
unfolding double_quoted
double_plain c [] h e = absurd (h refl)
double_plain c (d ∷ s) h e = ground (arith, e)

double_end : (t : List ℕ) → double_quoted (quote ∷ t) ≡ ([], t)
unfolding double_quoted
double_end [] = refl
double_end (d ∷ s) = refl

double_escaped :
    (c : ℕ) (s : List ℕ) → double_quoted (backslash ∷ (c ∷ s)) ≡ push c (double_quoted s)
unfolding double_quoted
double_escaped c s = refl

append_ne_nil : (s t : Text) (q : ℕ) → (s ++ (q ∷ t)) ≢ []
append_ne_nil [] t q = λ e. cc
append_ne_nil (c ∷ s) t q = λ e. cc

double_quoted-escape : (w t : Text) → double_quoted (escape w ++ (quote ∷ t)) ≡ (w, t)
unfolding escape
double_quoted-escape [] t = double_end t
double_quoted-escape (c ∷ w) t = elim (Bool-cases (c == quote || c == backslash)) [
  | inl special ↦
      rw special
        (double_escaped c (escape w ++ (quote ∷ t)) ∙ ap (push c) (double_quoted-escape w t))
  | inr plain ↦ rw plain (
      double_plain c (escape w ++ (quote ∷ t)) (append_ne_nil (escape w) t quote) plain
      ∙ ap (push c) (double_quoted-escape w t))
]

split_words-print_names :
    (f : ℕ) (ws : List Text)
    → length ws < f
    → All IsName ws
    → split_words f (print_names ws) ≡ some ws
unfolding print_names split_words skip_ws next_word
split_words-print_names zero ws h names = elim h [ ]
split_words-print_names (suc f) [] h names = refl
split_words-print_names (suc f) ([] ∷ ws) h names = absurd (names.0.some_text refl)
split_words-print_names (suc f) ((c ∷ w) ∷ ws) h names =
    let scanned : scan_word quote (escape (c ∷ w) ++ (quote ∷ print_names ws))
        ≡ (c ∷ w, print_names ws) =
      unfold scan_word in double_quoted-escape (c ∷ w) (print_names ws) in
    rw (scanned, split_words-print_names f ws (omega arith) names.1) refl

no_option-takes_file : (w : Text) → strip_prefix (codes "-") w ≡ none → takes_file w ≡ false
unfolding takes_file text_eq strip_prefix
no_option-takes_file [] h = refl
no_option-takes_file (c ∷ w) h = elim (Bool-cases (c == b'-')) [
  | inl dash ↦
      let swapped : b'-' == c ≡ true = ground (arith, dash) in cc (rw (swapped, strip_prefix) at h)
  | inr other ↦ rw other refl
]

drop_option : (w : Text) (ws : List Text) → IsName w → drop_options (w ∷ ws) ≡ w ∷ drop_options ws
unfolding drop_options
drop_option w [] n = rw (no_option-takes_file w n.no_option, n.no_option) refl
drop_option w (v ∷ ws) n = rw (no_option-takes_file w n.no_option, n.no_option) refl

drop_options-names : (ws : List Text) → All IsName ws → drop_options ws ≡ ws
unfolding drop_options
drop_options-names [] h = refl
drop_options-names (w ∷ ws) h =
    drop_option w ws h.0 ∙ ap (λ (vs : List Text). w ∷ vs) (drop_options-names ws h.1)

length-print_names : (ws : List Text) → length ws ≤ length (print_names ws)
unfolding print_names
length-print_names [] = omega arith
length-print_names (w ∷ ws) =
    omega (arith, length-append (escape w) (quote ∷ print_names ws), length-print_names ws)

-- The loop ends: each round uses a byte.
length-skip_ws : (s : List ℕ) → length (skip_ws s) ≤ length s
unfolding skip_ws
length-skip_ws [] = omega arith
length-skip_ws (c ∷ s) = ground (arith, length-skip_ws s)

length-single : (s : List ℕ) → length (single_quoted s).1 ≤ length s
unfolding single_quoted
length-single [] = omega arith
length-single (c ∷ s) = ground (arith, length-single s)

length-double : (s : List ℕ) → length (double_quoted s).1 ≤ length s
unfolding double_quoted
length-double [] = omega arith
length-double (c ∷ []) = ground arith
length-double (c ∷ d ∷ s) = ground (arith, length-double s, length-double (d ∷ s))

length-unquoted : (s : List ℕ) → length (unquoted s).1 ≤ length s
unfolding unquoted
length-unquoted [] = omega arith
length-unquoted (c ∷ []) = ground arith
length-unquoted (c ∷ d ∷ s) = ground (arith, length-unquoted s, length-unquoted (d ∷ s))

length-unquoted_cons :
    (c : ℕ) (s : List ℕ) → is_ws c ≡ false → length (unquoted (c ∷ s)).1 ≤ length s
unfolding unquoted
length-unquoted_cons c [] h = ground (arith, h)
length-unquoted_cons c (d ∷ s) h = ground (arith, h, length-unquoted s, length-unquoted (d ∷ s))

length-scan_word : (c : ℕ) (s : List ℕ) → is_ws c ≡ false → length (scan_word c s).1 ≤ length s
unfolding scan_word
length-scan_word c s h =
    ground (arith, length-single s, length-double s, length-unquoted_cons c s h)

abbrev NoWs : List ℕ → Type 0
NoWs [] = Unit
NoWs (c ∷ s) = is_ws c ≡ false

skip_ws-NoWs : (s : List ℕ) → NoWs (skip_ws s)
unfolding skip_ws
skip_ws-NoWs [] = tt
skip_ws-NoWs (c ∷ s) = elim (Bool-cases (is_ws c)) [
  | inl space ↦ rw space (skip_ws-NoWs s)
  | inr other ↦ rw other other
]

keep_word-some : (w : Text) (o : Option (List Text)) → o ≢ none → keep_word w o ≢ none
keep_word-some w none h = h
keep_word-some w (some ws) h = λ e. cc

next_word-ends :
    (f : ℕ) (more : List ℕ → Option (List Text)) (s : List ℕ)
    → ((t : List ℕ) → length t < f → more t ≢ none)
    → length s < suc f
    → NoWs s
    → next_word more s ≢ none
unfolding next_word
next_word-ends f more [] ends h ws = λ e. cc
next_word-ends f more (c ∷ s) ends h ws =
    let rest =
      keep_word-some (scan_word c s).0 (more (scan_word c s).1)
        (ends (scan_word c s).1 (omega (arith, length-scan_word c s ws, h))) in
    elim (Bool-cases (c == b'#')) [ inl comment ↦ rw comment (λ e. cc) | inr word ↦ rw word rest ]

split_words-ends : (f : ℕ) (s : List ℕ) → length s < f → split_words f s ≢ none
unfolding split_words
split_words-ends zero s h = elim h [ ]
split_words-ends (suc f) s h =
    next_word-ends f (split_words f) (skip_ws s) (split_words-ends f)
      (omega (arith, length-skip_ws s)) (skip_ws-NoWs s)

names_of-some : (o : Option (List Text)) → o ≢ none → names_of o ≢ none
names_of-some none h = h
names_of-some (some ws) h = λ e. cc

module _ (utf8 : Text → List ℕ) where
  -- The loop over the words of a line ends.
  pub parse_redo_ifchange_deps-ends : (line : Text) → parse_redo_ifchange_deps utf8 line ≢ none
  unfolding parse_redo_ifchange_deps
  parse_redo_ifchange_deps-ends line =
      elim (Option-cases (strip_prefix (codes "redo-ifchange") (trim_start line))) [
        | inl other ↦ rw other (λ e. cc)
        | inr (s, behind) ↦ rw behind (
            names_of-some (split_words (suc (length (utf8 s))) (utf8 s))
              (split_words-ends (suc (length (utf8 s))) (utf8 s) (omega arith)))
      ]

  -- Names that a script quotes for redo-ifchange, with a backslash before each quotation mark
  -- and backslash, are read back, in their order, if none is empty or begins with a dash, and
  -- the bytes of the line are its characters.
  pub parse_redo_ifchange_deps-print_line :
      (ws : List Text)
      → All IsName ws
      → utf8 (print_names ws) ≡ print_names ws
      → parse_redo_ifchange_deps utf8 (print_line ws) ≡ some ws
  unfolding parse_redo_ifchange_deps print_line trim_start strip_prefix
  parse_redo_ifchange_deps-print_line ws names bytes = rw bytes (
      ap names_of (
        split_words-print_names (suc (length (print_names ws))) ws
          (omega (arith, length-print_names ws)) names)
      ∙ ap some (drop_options-names ws names))
