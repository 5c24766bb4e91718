-- ===== src/ActionCache/Streams.antt =====
-- What is hashed for a key tells apart what it is made of.
use mathlib.Core.List.{append_assoc}
use redo.Base.{
  ℕ, zero, suc, ◌+◌, ◌*◌, ◌/◌, ◌^◌, ◌<◌, ◌≡◌, refl, sym, ap, ◌∙◌, List, [], ◌∷◌, ◌++◌, All, Text,
  some, arith, length,
}
use redo.Remote.{Bytes, Utf8}
use redo.ActionCache.Keys.{le_bytes, hash_str, feed_texts}

abbrev behead {ℓ} : {A : Type ℓ} → List A → List A
behead [] = []
behead (x ∷ xs) = xs

-- Lists of the same length end at the same place.
append_same_length : (a b x y : Bytes) → length a ≡ length b → a ++ x ≡ b ++ y → (a ≡ b) × (x ≡ y)
append_same_length [] [] x y h e = (refl, e)
append_same_length [] (d ∷ b) x y h e = ground arith
append_same_length (c ∷ a) [] x y h e = ground arith
append_same_length (c ∷ a) (d ∷ b) x y h e =
    let (same, rest) = append_same_length a b x y (omega (arith, h)) (ap behead e) in (cc, rest)

length-le_bytes : (k n : ℕ) → length (le_bytes k n) ≡ k
unfolding le_bytes
length-le_bytes zero n = refl
length-le_bytes (suc k) n = ap suc (length-le_bytes k (n / 256))

abbrev read_le : Bytes → ℕ
read_le [] = 0
read_le (b ∷ bs) = b + 256 * read_le bs

-- The numbers of so many bytes.
abbrev span : ℕ → ℕ
span zero = 1
span (suc k) = 256 * span k

read_le-le_bytes : (k n : ℕ) → n < span k → read_le (le_bytes k n) ≡ n
unfolding le_bytes
read_le-le_bytes zero n h = omega (arith, h)
read_le-le_bytes (suc k) n h = omega (arith, h, read_le-le_bytes k (n / 256) (omega (arith, h)))

le_bytes_injective : (m n : ℕ) → m < 2 ^ 64 → n < 2 ^ 64 → le_bytes 8 m ≡ le_bytes 8 n → m ≡ n
le_bytes_injective m n hm hn e =
    sym (read_le-le_bytes 8 m (omega (arith, hm)))
    ∙ ap read_le e
    ∙ read_le-le_bytes 8 n (omega (arith, hn))

pub number_cancel :
    (m n : ℕ) (x y : Bytes)
    → m < 2 ^ 64
    → n < 2 ^ 64
    → le_bytes 8 m ++ x ≡ le_bytes 8 n ++ y
    → (m ≡ n) × (x ≡ y)
number_cancel m n x y hm hn e =
    let (same, rest) =
      append_same_length (le_bytes 8 m) (le_bytes 8 n) x y
        (length-le_bytes 8 m ∙ sym (length-le_bytes 8 n)) e in
    (le_bytes_injective m n hm hn same, rest)

module _ (u : Utf8) where
  -- Every text can be read back.
  abbrev pub IsReadBack : Type 0
  IsReadBack = (s : Text) → u.decode (u.encode s) ≡ some s

  abbrev pub IsShort : Text → Type 0
  IsShort s = length (u.encode s) < 2 ^ 64

  pub hash_str_cancel :
      (s t : Text) (x y : Bytes)
      → IsReadBack
      → IsShort s
      → IsShort t
      → hash_str u s ++ x ≡ hash_str u t ++ y
      → (s ≡ t) × (x ≡ y)
  unfolding hash_str
  hash_str_cancel s t x y reads hs ht e =
      let parted =
        sym (append_assoc (le_bytes 8 (length (u.encode s))) (u.encode s) x)
        ∙ e
        ∙ append_assoc (le_bytes 8 (length (u.encode t))) (u.encode t) y in
      let (lengths, behind) =
        number_cancel (length (u.encode s)) (length (u.encode t)) (u.encode s ++ x)
          (u.encode t ++ y) hs ht parted in
      let (texts, rest) = append_same_length (u.encode s) (u.encode t) x y lengths behind in
      let read : some s ≡ some t = sym (reads s) ∙ ap u.decode texts ∙ reads t in (cc, rest)

  pub feed_texts_cancel :
      (ss ts : List Text) (x y : Bytes)
      → IsReadBack
      → length ss ≡ length ts
      → All IsShort ss
      → All IsShort ts
      → feed_texts u ss ++ x ≡ feed_texts u ts ++ y
      → (ss ≡ ts) × (x ≡ y)
  unfolding feed_texts
  feed_texts_cancel [] [] x y reads h hs ht e = (refl, e)
  feed_texts_cancel [] (t ∷ ts) x y reads h hs ht e = ground arith
  feed_texts_cancel (s ∷ ss) [] x y reads h hs ht e = ground arith
  feed_texts_cancel (s ∷ ss) (t ∷ ts) x y reads h hs ht e =
      let parted =
        sym (append_assoc (hash_str u s) (feed_texts u ss) x)
        ∙ e
        ∙ append_assoc (hash_str u t) (feed_texts u ts) y in
      let (first, behind) =
        hash_str_cancel s t (feed_texts u ss ++ x) (feed_texts u ts ++ y) reads hs.0 ht.0 parted in
      let (others, rest) = feed_texts_cancel ss ts x y reads (omega (arith, h)) hs.1 ht.1 behind in
      (cc, rest)
