-- ===== src/Store/Rows.antt =====
-- The rows of the state database and the record of a file: redo_core/src/state.rs.
-- Row ids and run ids are positive in sqlite and are numbers here; a text is a list of characters.
use redo.Base.{
  ℕ, Bool, true, false, ◌&&◌, ◌||◌, not, Text, codes, text_eq, Option, none, some, ltb, leb, ◌==◌,
  if◌then◌else◌,
}

-- `ALWAYS`, `STAMP_DIR` and `STAMP_MISSING`
abbrev pub always : Text
always = codes "//ALWAYS"

abbrev pub stamp_dir : Text
stamp_dir = codes "dir"

abbrev pub stamp_missing : Text
stamp_missing = codes "0"

pub record FileRow : Type 0 where
  pub id : ℕ
  pub name : Text
  pub is_generated : Option ℕ
  pub is_override : Option ℕ
  pub checked_runid : Option ℕ
  pub changed_runid : Option ℕ
  pub failed_runid : Option ℕ
  pub stamp : Option Text
  pub csum : Option Text

pub record File : Type 0 where
  pub id : ℕ
  pub name : Text
  pub is_generated : Bool
  pub is_override : Bool
  pub checked_runid : Option ℕ
  pub changed_runid : Option ℕ
  pub failed_runid : Option ℕ
  pub stamp : Option Text
  pub csum : Option Text

pub record DepRow : Type 0 where
  pub target : ℕ
  pub source : ℕ
  pub mode : ℕ
  pub delete_me : ℕ

-- `is_some()` and `unwrap_or(0)`
abbrev pub is_some {ℓ} : {A : Type ℓ} → Option A → Bool
is_some none = false
is_some (some a) = true

abbrev pub unwrap_or : ℕ → Option ℕ → ℕ
unwrap_or d none = d
unwrap_or d (some a) = a

-- `a < b` of optional numbers, where `None` comes first.
abbrev pub ltb_option : Option ℕ → Option ℕ → Bool
ltb_option a none = false
ltb_option none (some b) = true
ltb_option (some a) (some b) = ltb a b

-- `(Some(a), Some(b)) => a >= b, _ => false`
abbrev pub reached : Option ℕ → Option ℕ → Bool
reached (some a) (some b) = leb b a
reached (some a) none = false
reached none b = false

-- `stamp.as_deref() == Some(&newstamp)`
unfoldable pub same_stamp : Option Text → Text → Bool
unfolding text_eq
same_stamp none t = false
same_stamp (some s) t = text_eq s t

-- `unwrap_or(0) != 0`
abbrev pub truthy : Option ℕ → Bool
truthy o = if unwrap_or 0 o == 0 then false else true

abbrev pub of_bool : Bool → Option ℕ
of_bool true = some 1
of_bool false = some 0

module _ (runid : Option ℕ) where
  -- `File::from_row`
  unfoldable pub from_row : FileRow → File
  unfolding text_eq
  from_row r = record {
    id = r.id;
    name = r.name;
    is_generated = truthy r.is_generated;
    is_override = truthy r.is_override;
    checked_runid = r.checked_runid;
    changed_runid =
        if text_eq r.name always
          && (not (is_some r.changed_runid) || ltb_option r.changed_runid runid)
        then runid
        else r.changed_runid;
    failed_runid = r.failed_runid;
    stamp = r.stamp;
    csum = r.csum;
  }

-- The columns that `save` writes, put into a row.
unfoldable pub save_row : File → FileRow → FileRow
save_row f r = record {
  id = r.id;
  name = r.name;
  is_generated = of_bool f.is_generated;
  is_override = of_bool f.is_override;
  checked_runid = f.checked_runid;
  changed_runid = f.changed_runid;
  failed_runid = f.failed_runid;
  stamp = f.stamp;
  csum = f.csum;
}
