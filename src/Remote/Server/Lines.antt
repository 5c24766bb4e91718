-- ===== src/Remote/Server/Lines.antt =====
-- The file of a mapping: one line with a key, as it is written and read.
use redo.Base.{
  ◌≡◌, refl, true, false, [], ◌∷◌, ◌++◌, Text, text_eq_refl, some, arith, split_on, split_on-append,
  lines, lines_of, strip_cr, is_empty, trim_word, has_space, contains,
}
use redo.Remote.{Bytes, Utf8, IsCodec}
use redo.Remote.Server.{all_hex, is_hex, is_key, IsKey, Config, action_path, Files, read_file}
use redo.Remote.Server.Handlers.{first_line, as_text}
use redo.Remote.Server.Refines.{key_line-IsAscii}

pub read_file_written : (p : Text) (b : Bytes) (fs : Files) → read_file p ((p, b) ∷ fs) ≡ some b
unfolding read_file
read_file_written p b fs = rw (text_eq_refl p) refl

pub hex_word : (s : Text) → all_hex s ≡ true → has_space s ≡ false
hex_word [] h = refl
hex_word (c ∷ s) h = ground (arith, h, hex_word s)

hex_line : (s : Text) → all_hex s ≡ true → contains s 10 ≡ false
hex_line [] h = refl
hex_line (c ∷ s) h = ground (arith, h, hex_line s)

strip_cr_hex : (s : Text) → all_hex s ≡ true → strip_cr s ≡ s
unfolding strip_cr is_empty
strip_cr_hex [] h = refl
strip_cr_hex (c ∷ s) h = ground (arith, h, strip_cr_hex s)

pub key_hex : (m : Text) → IsKey m → all_hex m ≡ true
unfolding is_key is_hex
key_hex m h = ground (arith, h)

-- The mapping of a file that holds a key on a line.
pub first_line_key : (m : Text) → IsKey m → first_line (m ++ (10 ∷ [])) ≡ m
unfolding first_line lines lines_of split_on
first_line_key m h =
    rw (split_on-append 10 m [] (hex_line m (key_hex m h)), strip_cr_hex m (key_hex m h))
      (trim_word m (hex_word m (key_hex m h)))

module _ (u : Utf8) (cfg : Config) where
  -- What the file of an action holds once a mapping was written.
  pub read_mapping :
      (k m : Text) (fs : Files)
      → IsCodec u
      → IsKey m
      → as_text u (
          read_file
            (action_path cfg.root k)
            ((action_path cfg.root k, u.encode (m ++ (10 ∷ []))) ∷ fs))
        ≡ some (m ++ (10 ∷ []))
  unfolding as_text
  read_mapping k m fs codec hm =
      let line = key_line-IsAscii m hm in
      rw
        (
          read_file_written (action_path cfg.root k) (u.encode (m ++ (10 ∷ []))) fs,
          codec.encode_ascii (m ++ (10 ∷ [])) line,
        )
        (codec.decode_ascii (m ++ (10 ∷ [])) line)
