-- ===== src/Store/Tables.antt =====
-- The SQL statements of redo_core/src/state.rs as functions on the tables Files and Deps. The
-- order of a table is the order in which its rows are found.
pub mod Laws
use redo.Base.{ℕ, ◌&&◌, List, [], ◌∷◌, ◌++◌, Text, text_eq, Option, none, some, ◌==◌, if◌then◌else◌}
use redo.Store.Rows.{FileRow, File, DepRow, from_row, save_row}

pub record Db : Type 0 where
  pub files : List FileRow
  pub deps : List DepRow

abbrev pub ids : List FileRow → List ℕ
ids [] = []
ids (r ∷ rs) = r.id ∷ ids rs

-- `select … from Files where rowid=?`
unfoldable pub row_by_id : ℕ → List FileRow → Option FileRow
row_by_id i [] = none
row_by_id i (r ∷ rs) = if r.id == i then some r else row_by_id i rs

-- `select … from Files where name=?`
unfoldable pub row_by_name : Text → List FileRow → Option FileRow
unfolding text_eq
row_by_name n [] = none
row_by_name n (r ∷ rs) = if text_eq r.name n then some r else row_by_name n rs

-- `update Files set … where rowid=?`
unfoldable pub update_row : File → List FileRow → List FileRow
unfolding save_row
update_row f [] = []
update_row f (r ∷ rs) = (if r.id == f.id then save_row f r else r) ∷ update_row f rs

abbrev pub blank_row : ℕ → Text → FileRow
blank_row i n = record {
  id = i;
  name = n;
  is_generated = none;
  is_override = none;
  checked_runid = none;
  changed_runid = none;
  failed_runid = none;
  stamp = none;
  csum = none;
}

-- `insert or ignore into Files (name) values (?)`, at the row id that sqlite chooses.
unfoldable pub insert_file : (List FileRow → ℕ) → Text → List FileRow → List FileRow
unfolding row_by_name
insert_file next n rs = elim (row_by_name n rs) [
  | some r ↦ rs
  | none ↦ rs ++ (blank_row (next rs) n ∷ [])
]

-- `update Deps set delete_me=1 where target=?`
unfoldable pub mark_deps : ℕ → List DepRow → List DepRow
mark_deps t [] = []
mark_deps t (d ∷ ds) = (if d.target == t then record d { delete_me = 1 } else d) ∷ mark_deps t ds

-- `delete from Deps where target=? and delete_me=1`
unfoldable pub delete_marked : ℕ → List DepRow → List DepRow
delete_marked t [] = []
delete_marked t (d ∷ ds) =
    let rest = delete_marked t ds in if d.target == t && d.delete_me == 1 then rest else d ∷ rest

-- `insert or replace into Deps …`: the row of the same key goes first.
unfoldable pub delete_key : ℕ → ℕ → List DepRow → List DepRow
delete_key t s [] = []
delete_key t s (d ∷ ds) =
    let rest = delete_key t s ds in if d.target == t && d.source == s then rest else d ∷ rest

unfoldable pub replace_dep : ℕ → ℕ → ℕ → List DepRow → List DepRow
unfolding delete_key
replace_dep t m s ds =
    delete_key t s ds ++ (record { target = t; source = s; mode = m; delete_me = 0 } ∷ [])

-- `select … from Files join Deps on Files.rowid = Deps.source where target=?`
module _ (runid : Option ℕ) where
  unfoldable pub select_deps : ℕ → List FileRow → List DepRow → List (ℕ × File)
  unfolding row_by_id from_row
  select_deps t rs [] = []
  select_deps t rs (d ∷ ds) =
      let rest = select_deps t rs ds in
      if d.target == t
      then elim (row_by_id d.source rs) [ none ↦ rest | some r ↦ (d.mode, from_row runid r) ∷ rest ]
      else rest
