-- ===== src/Remote/Json.antt =====
-- The minimal JSON extractor, which the client and the server have a copy of each.
use redo.Base.{
  ℕ, ◌^◌, [], ◌∷◌, ◌++◌, Text, is_empty, leb, ◌&&◌, Option, none, some, if◌then◌else◌, strip_prefix,
  split_once, trim_start, after, parse_unsigned,
}

abbrev pub quote : ℕ
quote = b'"'

abbrev pub quoted : Text → Text
quoted s = quote ∷ (s ++ (quote ∷ []))

-- `?` of options.
infixl 5 ◌>>=◌
abbrev pub ◌>>=◌ {ℓ κ} : {A : Type ℓ} {B : Type κ} → Option A → (A → Option B) → Option B
none >>= k = none
some a >>= k = k a

-- What stands behind the key, its colon and white space.
unfoldable pub behind_key : Text → Text → Option Text
unfolding after split_once trim_start
behind_key body key = do
  rest ← after (quoted key) body
  (_, value) ← split_once b':' rest
  some (trim_start value)

unfoldable pub json_get_string : Text → Text → Option Text
unfolding behind_key strip_prefix split_once
json_get_string body key = do
  value ← behind_key body key
  rest ← strip_prefix (quote ∷ []) value
  (s, _) ← split_once quote rest
  some s

-- The digits at the front of a text.
unfoldable pub leading_digits : Text → Text
leading_digits [] = []
leading_digits (c ∷ s) =
    let rest = leading_digits s in if leb 48 c && leb c 57 then c ∷ rest else []

unfoldable pub json_get_u64 : Text → Text → Option ℕ
unfolding behind_key leading_digits is_empty parse_unsigned
json_get_u64 body key = do
  value ← behind_key body key
  let ds = leading_digits value
  if is_empty ds then none else parse_unsigned (2 ^ 64) ds
