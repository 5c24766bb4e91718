-- ===== src/Jobserver/Setup/Makeflags.antt =====
-- The text of MAKEFLAGS: what `setup` prints there, `parse_makeflags` reads.
use mathlib.Core.List.{append_assoc}
use redo.Base.{
  ℕ, ◌^◌, ◌<◌, ◌≡◌, refl, ◌∙◌, ap, true, false, [], ◌∷◌, ◌++◌, arith, Text, codes, some, pos, inl,
  split_on-append, split_on_single, contains, to_string, contains-to_string, contains-append,
  parse_digits, parse_digits-to_string, after, all_digits, all_digits-to_string,
}
use redo.Jobserver.Setup.{
  parse_i32, parse_pair, above, parse_arg, parse_makeflags, print_pair, print_makeflags,
}

-- A descriptor that `parse::<i32>()` can give and that is above 0.
abbrev pub IsFd : ℕ → Type 0
IsFd a = (0 < a) × (a < 2 ^ 31)

nothing : {n : ℕ} {A : Type 0} → parse_digits [] ≡ some n → A
unfolding parse_digits
nothing e = cc

parse_i32_digits :
    (s : Text) (n : ℕ)
    → all_digits s ≡ true
    → parse_digits s ≡ some n
    → n < 2 ^ 31
    → parse_i32 s ≡ some (pos n)
unfolding parse_i32 all_digits
parse_i32_digits [] n d e h = nothing e
parse_i32_digits (c ∷ s) n d e h = ground (arith, e)

parse_i32-to_string : (n : ℕ) → n < 2 ^ 31 → parse_i32 (to_string n) ≡ some (pos n)
parse_i32-to_string n h =
    parse_i32_digits (to_string n) n (all_digits-to_string n) (parse_digits-to_string n) h

pub parse_pair-print_pair :
    (a b : ℕ) → a < 2 ^ 31 → b < 2 ^ 31 → parse_pair (print_pair (a, b)) ≡ some (pos a, pos b)
unfolding parse_pair print_pair
parse_pair-print_pair a b ha hb =
    rw
      (
        split_on-append b',' (to_string a) (to_string b)
            (contains-to_string b',' a (inl (omega arith))),
        split_on_single b',' (to_string b) (contains-to_string b',' b (inl (omega arith))),
        parse_i32-to_string a ha,
        parse_i32-to_string b hb,
      )
      refl

contains-print_pair : (a b : ℕ) → contains (print_pair (a, b)) b' ' ≡ false
unfolding print_pair
contains-print_pair a b =
    contains-append (to_string a) (b',' ∷ to_string b) b' '
      (contains-to_string b' ' a (inl (omega arith))) (ground (arith, contains-to_string b' ' b))

parse_arg-print_pair :
    (a b : ℕ) (t : Text)
    → IsFd a
    → IsFd b
    → parse_arg (print_pair (a, b) ++ (b' ' ∷ t)) ≡ some (a, b)
unfolding parse_arg above
parse_arg-print_pair a b t ha hb =
    rw
      (
        split_on-append b' ' (print_pair (a, b)) t (contains-print_pair a b),
        parse_pair-print_pair a b ha.1 hb.1,
      )
      (ground arith)

-- What `setup` writes to MAKEFLAGS is parsed to the same two descriptors, if both are above 0
-- and below 2 ^ 31.
pub parse_makeflags-print_makeflags :
    (a b : ℕ) → IsFd a → IsFd b → parse_makeflags (print_makeflags (a, b)) ≡ some (a, b)
unfolding parse_makeflags print_makeflags after
parse_makeflags-print_makeflags a b ha hb =
    let pair = print_pair (a, b) in
    let between = codes " --jobserver-fds=" in
    ap parse_arg (
      append_assoc (pair ++ between) pair (b' ' ∷ [])
      ∙ append_assoc pair between (pair ++ (b' ' ∷ [])))
    ∙ parse_arg-print_pair a b (codes "--jobserver-fds=" ++ (pair ++ (b' ' ∷ []))) ha hb
