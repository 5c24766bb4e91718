-- ===== src/Cycles/Laws.antt =====
-- What `check` answers after `add`: the variable is read back as the set that was written.
use redo.Base.{
  ℕ, ◌≡◌, refl, ◌∙◌, inr, true, false, ◌||◌, List, [], ◌∷◌, arith, Text, text_eq, text_eq_iff,
  is_empty, split_on, join_with, to_string, to_string_injective, contains-to_string,
  to_string_ne_nil, if◌then◌else◌, err, cyclic, All, Lacks, split_on-join_with, split_on-Lacks,
  contains, ◌==◌,
}
use redo.Cycles.{colon, mem_text, insert_text, collect, get, add, check}

-- An order of iteration visits each element, and nothing else.
abbrev pub Visits : (List Text → List Text) → Type 0
Visits order = (w : Text) (ws : List Text) → mem_text w (order ws) ≡ mem_text w ws

mem_text-insert_text :
    (w v : Text) (ws : List Text) → mem_text w (insert_text v ws) ≡ (text_eq w v || mem_text w ws)
unfolding insert_text
mem_text-insert_text w v ws = ground (arith, text_eq_iff w v)

-- A list of texts that can stand in the variable.
abbrev IsItem : Text → Type 0
IsItem w = (contains w colon ≡ false) × (is_empty w ≡ false)

mem_text-collect :
    (w : Text) (ws : List Text) → is_empty w ≡ false → mem_text w (collect ws) ≡ mem_text w ws
unfolding collect
mem_text-collect w [] h = refl
mem_text-collect w (v ∷ ws) h =
    ground (arith, mem_text-collect w ws h, mem_text-insert_text w v (collect ws), text_eq_iff w v)

IsItem-insert_text :
    (w : Text) (ws : List Text) → IsItem w → All IsItem ws → All IsItem (insert_text w ws)
unfolding insert_text
IsItem-insert_text w ws h hs = ground arith

IsItem-collect : (ws : List Text) → All (Lacks colon) ws → All IsItem (collect ws)
unfolding collect
IsItem-collect [] hs = tt
IsItem-collect (w ∷ ws) hs =
    ground (arith, IsItem-collect ws hs.1, IsItem-insert_text w (collect ws))

IsItem-of_mem : (ws : List Text) → All IsItem ws → (w : Text) → mem_text w ws ≡ true → IsItem w
unfolding mem_text
IsItem-of_mem [] hs w h = cc
IsItem-of_mem (v ∷ ws) hs w h = ground (arith, text_eq_iff w v, IsItem-of_mem ws hs.1 w)

All-of_mem :
    (P : Text → Type 0) (ws : List Text) → ((w : Text) → mem_text w ws ≡ true → P w) → All P ws
unfolding mem_text
All-of_mem P [] h = tt
All-of_mem P (v ∷ ws) h =
    (h v (ground (arith, text_eq_iff v v)), All-of_mem P ws (λ w m. h w (ground arith)))

Lacks-of_IsItem : (ws : List Text) → All IsItem ws → All (Lacks colon) ws
Lacks-of_IsItem [] hs = tt
Lacks-of_IsItem (w ∷ ws) hs = (hs.0.0, Lacks-of_IsItem ws hs.1)

-- A nonempty list of items is read back from the variable.
mem_text-get-join_with :
    (w : Text) (ws : List Text)
    → All IsItem ws
    → mem_text w ws ≡ true
    → (v : Text) → is_empty v ≡ false
    → mem_text v (get (join_with colon ws)) ≡ mem_text v ws
unfolding get
mem_text-get-join_with w [] hs m v h = unfold mem_text in cc
mem_text-get-join_with w (u ∷ ws) hs m v h =
    rw (split_on-join_with colon u ws hs.0.0 (Lacks-of_IsItem ws hs.1))
      (mem_text-collect v (u ∷ ws) h)

to_string-IsItem : (fid : ℕ) → IsItem (to_string fid)
unfolding is_empty
to_string-IsItem fid =
    (contains-to_string colon fid (inr (omega arith)), ground (arith, to_string_ne_nil fid))

module _ (order : List Text → List Text) (visits : Visits order) where
  mem_text-get-add :
      (var : Text) (fid other : ℕ)
      → mem_text (to_string other) (get (add order var fid))
        ≡ (text_eq (to_string other) (to_string fid) || mem_text (to_string other) (get var))
  unfolding add
  mem_text-get-add var fid other =
      let items = insert_text (to_string fid) (get var) in
      let good : All IsItem items =
        unfold get in
        IsItem-insert_text (to_string fid) (get var) (to_string-IsItem fid)
          (IsItem-collect (split_on colon var) (split_on-Lacks colon var)) in
      let listed : All IsItem (order items) =
        All-of_mem IsItem (order items)
          (λ w m. IsItem-of_mem items good w (rw (← visits w items) m)) in
      let there : mem_text (to_string fid) (order items) ≡ true =
        visits (to_string fid) items
        ∙ ground (
          arith,
          mem_text-insert_text (to_string fid) (to_string fid) (get var),
          text_eq_iff (to_string fid) (to_string fid),
        ) in
      mem_text-get-join_with (to_string fid) (order items) listed there (to_string other)
        (to_string-IsItem other).1
      ∙ visits (to_string other) items
      ∙ mem_text-insert_text (to_string other) (to_string fid) (get var)

  -- After an id is added, a check of an id fails if it is that id, and otherwise answers as it
  -- did before, in whatever order the set is written.
  pub check-add :
      (var : Text) (fid other : ℕ)
      → check (add order var fid) other ≡ (if other == fid then err cyclic else check var other)
  unfolding check
  check-add var fid other = ground (
    arith,
    mem_text-get-add var fid other,
    text_eq_iff (to_string other) (to_string fid),
    to_string_injective other fid,
  )
