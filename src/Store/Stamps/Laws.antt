-- ===== src/Store/Stamps/Laws.antt =====
-- What a change of stamp means for a regular file.
use redo.Base.{
  ℕ, inl, ◌≡◌, refl, ap, ◌↔◌, true, false, List, [], ◌∷◌, arith, Text, text_eq_iff, to_string,
  to_string_injective, contains-to_string, Lacks, split_on-join_with, take,
}
use redo.Store.Stamps.{Metadata, dash, print_stamp, crit, texts_eq, detect_override}

texts_eq_iff : (vs ws : List Text) → (texts_eq vs ws ≡ true) ↔ (vs ≡ ws)
unfolding texts_eq
texts_eq_iff [] [] = (λ _. refl, λ _. refl)
texts_eq_iff [] (w ∷ ws) = (λ h. cc, λ h. cc)
texts_eq_iff (v ∷ vs) [] = (λ h. cc, λ h. cc)
texts_eq_iff (v ∷ vs) (w ∷ ws) = ground (arith, texts_eq_iff vs ws, text_eq_iff v w)

Lacks-to_string : (n : ℕ) → Lacks dash (to_string n)
Lacks-to_string n = contains-to_string dash n (inl (omega arith))

crit-print_stamp :
    (m : Metadata) → Lacks dash m.mtime → crit (print_stamp m) ≡ m.mtime ∷ to_string m.size ∷ []
unfolding print_stamp crit
crit-print_stamp m h = ap (take 2) (
    split_on-join_with dash m.mtime
      (to_string m.size
        ∷ to_string m.ino
        ∷ to_string m.mode
        ∷ to_string m.uid
        ∷ to_string m.gid
        ∷ [])
      h
      (
        Lacks-to_string m.size,
        (
          Lacks-to_string m.ino,
          (Lacks-to_string m.mode, (Lacks-to_string m.uid, (Lacks-to_string m.gid, tt))),
        ),
      ))

detect_override_iff : (s t : Text) → (detect_override s t ≡ false) ↔ (crit s ≡ crit t)
unfolding detect_override
detect_override_iff s t =
    ground (arith, text_eq_iff s t, texts_eq_iff (crit s) (crit t), ap crit {x = s} {y = t})

-- Between two stamps of regular files, whose times are not negative, an override is reported
-- exactly when the modification time or the size differs: a change of inode, mode or owner
-- alone is none.
pub detect_override-print_stamp :
    (m n : Metadata)
    → Lacks dash m.mtime
    → Lacks dash n.mtime
    → (detect_override (print_stamp m) (print_stamp n) ≡ false)
      ↔ ((m.mtime ≡ n.mtime) × (m.size ≡ n.size))
detect_override-print_stamp m n hm hn = ground (
  arith,
  detect_override_iff (print_stamp m) (print_stamp n),
  crit-print_stamp m hm,
  crit-print_stamp n hn,
  to_string_injective m.size n.size,
)
