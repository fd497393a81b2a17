-- ===== src/Storage/Atomic.antt =====
-- `save` of crates/storage/src/json_file.rs replaces a snapshot as a whole or not at all.
use stellartrace.Prelude.{
  ◌≡◌, ◌≢◌, inl, inr, sym, ap, ◌∙◌, Bool, true, false, Option, none, some, string_eq, ◌==◌, arith,
  if◌then◌else◌, if-true, if-false, Bool-cases,
}
use stellartrace.Prelude.HashMap.{get, insert, get-insert, get-insert_ne, get-remove}
use stellartrace.Prelude.Outcome.{Result, ok, fail}
use stellartrace.Platform.{Bytes}
use stellartrace.Storage.JsonFile.{
  Serde, FilePath, path_eq, Disk, Faults, StorageError, tmp_path, save, save_json, write_and_rename,
  rename, io,
}

-- the file that a loader sees, by how the save ended
abbrev pub contents_after : Result Unit StorageError → Option Bytes → Option Bytes → Option Bytes
contents_after (ok _) old new = new
contents_after (fail e) old new = old

module _ {A : Type 0} ⦃serde_json : Serde A⦄ where
  -- Wherever a save stops, and whatever a failed write leaves behind, the snapshot is the old one as a
  -- whole if the save fails and the new one as a whole if it succeeds, and no file but it and its
  -- temporary sibling has changed. It is assumed that the snapshot is not its own sibling.
  pub save-get :
      (disk : Disk) (faults : Faults) (path other : FilePath) (a : A)
      → path ≢ tmp_path path
      → other ≢ tmp_path path
      → get other (save disk faults path a).0 ≡ (
          if path == other
          then contents_after
              (save disk faults path a).1
              (get path disk)
              (serde_json.to_vec_pretty a)
          else get other disk)
  unfolding save
  save-get disk faults path other a here there = dir faults.create_dir_fails
    where
      IsKept : Disk × Result Unit StorageError → Option Bytes → Type 0
      IsKept (after, result) new =
          get other after
          ≡ (if path == other then contents_after result (get path disk) new else get other disk)

      unchanged : get other disk ≡ (if path == other then get path disk else get other disk)
      unchanged = elim (Bool-cases (path == other)) [
        | inl e ↦
            ap (λ p. get p disk) (sym ((path_eq.test_iff path other).0 e)) ∙ sym (if-true _ _ _ e)
        | inr e ↦ sym (if-false _ _ _ e)
      ]

      beside : (json : Bytes) → get other (insert (tmp_path path) json disk) ≡ get other disk
      beside json = get-insert_ne (tmp_path path) other json disk (λ e. there (sym e))

      aside : tmp_path path ≢ other
      aside e = there (sym e)

      renamed :
          (json : Bytes)
          → IsKept
              (rename (tmp_path path) path json (insert (tmp_path path) json disk), ok tt)
              (some json)
      renamed json =
          get-insert path other json _
          ∙ ap (λ o. if path == other then some json else o)
              (get-remove (tmp_path path) other (insert (tmp_path path) json disk)
                ∙ if-false (tmp_path path == other) _ _
                    (ground (arith, path_eq.test_iff (tmp_path path) other, aside))
                ∙ beside json)

      renaming :
          (b : Bool) (json : Bytes)
          → IsKept
              (if b
                then (insert (tmp_path path) json disk, fail io)
                else (rename (tmp_path path) path json (insert (tmp_path path) json disk), ok tt))
              (some json)
      renaming true json = beside json ∙ unchanged
      renaming false json = renamed json

      writing :
          (o : Option Bytes) (json : Bytes)
          → IsKept (write_and_rename disk faults o path json) (some json)
      writing (some partial) json = beside partial ∙ unchanged
      writing none json = renaming faults.rename_fails json

      saving : (o : Option Bytes) → IsKept (save_json disk faults path o) o
      saving none = unchanged
      saving (some json) = writing faults.write_fails json

      dir :
          (b : Bool)
          → IsKept
              (if b
                then (disk, fail io)
                else save_json disk faults path (serde_json.to_vec_pretty a))
              (serde_json.to_vec_pretty a)
      dir true = unchanged
      dir false = saving (serde_json.to_vec_pretty a)
