-- ===== src/Storage/JsonFile.antt =====
-- `JsonFileStore` of crates/storage/src/json_file.rs. The disk maps paths to contents. Which of the
-- calls of `std::fs` fail, and what a failed write leaves behind, is an argument.
use stellartrace.Prelude.{
  ◌≡◌, ◌↔◌, ap, Bool, true, false, ◌&&◌, Option, none, some, String, Eq, string_eq, ◌==◌, arith,
  if◌then◌else◌,
}
use stellartrace.Prelude.HashMap.{HashMap, get, insert, remove}
use stellartrace.Prelude.Outcome.{Result, ok, fail}
use stellartrace.Platform.{Bytes}

-- `serde_json::to_vec_pretty` and `serde_json::from_slice`
pub record Serde (A : Type 0) : Type 0 where
  pub to_vec_pretty : A → Option Bytes
  pub from_slice : Bytes → Option A

-- A path in its parts.
pub record FilePath : Type 0 where
  pub parent : String
  pub stem : String
  pub extension : String

abbrev pub path_beq : FilePath → FilePath → Bool
path_beq p q = p.parent == q.parent && (p.stem == q.stem && p.extension == q.extension)

abbrev path_of : String → String → String → FilePath
path_of a b c = record { parent = a; stem = b; extension = c }

pub path_beq_iff : (p q : FilePath) → (path_beq p q ≡ true) ↔ (p ≡ q)
path_beq_iff p q = (
  λ h.
      same_parts p.parent p.stem p.extension q.parent q.stem q.extension
        (ground (arith, string_eq.test_iff p.parent q.parent))
        (ground (arith, string_eq.test_iff p.stem q.stem))
        (ground (arith, string_eq.test_iff p.extension q.extension)),
  λ h. ground (
    arith,
    string_eq.test_iff p.parent q.parent,
    string_eq.test_iff p.stem q.stem,
    string_eq.test_iff p.extension q.extension,
    ap (λ r. r.parent) h,
    ap (λ r. r.stem) h,
    ap (λ r. r.extension) h,
  ),
)
  where
    same_parts : (a b c x y z : String) → a ≡ x → b ≡ y → c ≡ z → path_of a b c ≡ path_of x y z
    same_parts a b c x y z h k l = cc

instance abbrev pub path_eq : Eq FilePath
path_eq = record { test = path_beq; test_iff = path_beq_iff }

-- `Path::with_extension`
abbrev pub with_extension : FilePath → String → FilePath
with_extension p extension = record { parent = p.parent; stem = p.stem; extension = extension }

abbrev pub Disk : Type 0
Disk = HashMap FilePath Bytes

pub data StorageError : Type 0 where
  io serde : StorageError

-- What goes wrong in a call of `save`. A write that fails may leave some bytes.
pub record Faults : Type 0 where
  pub create_dir_fails : Bool
  pub write_fails : Option Bytes
  pub rename_fails : Bool

abbrev pub no_faults : Faults
no_faults = record { create_dir_fails = false; write_fails = none; rename_fails = false }

abbrev pub tmp_path : FilePath → FilePath
tmp_path p = with_extension p "json.tmp"

-- `fs::rename`, of a file that is there
abbrev pub rename : FilePath → FilePath → Bytes → Disk → Disk
rename from to contents disk = insert to contents (remove from disk)

abbrev pub write_and_rename :
    Disk → Faults → Option Bytes → FilePath → Bytes → Disk × Result Unit StorageError
write_and_rename disk faults (some partial) path json =
    (insert (tmp_path path) partial disk, fail io)
write_and_rename disk faults none path json =
    let written = insert (tmp_path path) json disk in
    if faults.rename_fails
    then (written, fail io)
    else (rename (tmp_path path) path json written, ok tt)

abbrev pub save_json : Disk → Faults → FilePath → Option Bytes → Disk × Result Unit StorageError
save_json disk faults path none = (disk, fail serde)
save_json disk faults path (some json) = write_and_rename disk faults faults.write_fails path json

abbrev pub parsed : {A : Type 0} → Option A → Result (Option A) StorageError
parsed none = fail serde
parsed (some a) = ok (some a)

abbrev pub load_from :
    {A : Type 0} ⦃serde_json : Serde A⦄ → Bool → Option Bytes → Result (Option A) StorageError
load_from read_fails none = ok none
load_from ⦃serde_json⦄ read_fails (some contents) =
    if read_fails then fail io else parsed (serde_json.from_slice contents)

module _ {A : Type 0} ⦃serde_json : Serde A⦄ where
  unfoldable pub save : Disk → Faults → FilePath → A → Disk × Result Unit StorageError
  save disk faults path data_ =
      if faults.create_dir_fails
      then (disk, fail io)
      else save_json disk faults path (serde_json.to_vec_pretty data_)

  unfoldable pub load : Disk → Bool → FilePath → Result (Option A) StorageError
  load disk read_fails path = load_from read_fails (get path disk)
