-- ===== src/Config.antt =====
-- config/{record,sqlite,codec}.go: complete, versioned documents on each server, and how
-- replicas of them are merged. SHA-256, the length of a JSON encoding and the tables of Unicode are
-- parameters; a digest is the number of its 32 bytes.
pub mod Order
pub mod Snapshots
pub mod Convergence
pub mod Saves
pub mod VersionBytes
pub mod Store
pub mod Writes
pub mod Merges
pub mod Revisions
pub mod Sync
use specter.Prelude.{
  ℕ, suc, ◌+◌, ◌-◌, ◌^◌, ◌<◌, Bool, true, false, not, ◌&&◌, ◌||◌, Option, none, some, List, [], ◌∷◌,
  map, Bytes, bytes_eq, ◌=?◌, ltb, ◌==◌, if◌then◌else◌, length, nat_eq,
}
use specter.Errors.{Error, Result, ok, err, plain, ◌>>=◌}
use specter.Containers.{find}
use specter.Kv.Sqlite.Schema.{set_row}

abbrev pub max_name_bytes : ℕ
max_name_bytes = 512

abbrev pub max_value_bytes : ℕ
max_value_bytes = 262144

abbrev pub max_documents : ℕ
max_documents = 4096

abbrev pub max_snapshot_bytes : ℕ
max_snapshot_bytes = 8388608

abbrev pub err_invalid_record : Error
err_invalid_record = plain "invalid configuration record"

abbrev pub err_too_large : Error
err_too_large = plain "configuration exceeds size limit"

abbrev pub err_conflict : Error
err_conflict = plain "configuration version changed"

abbrev pub err_schema_regression : Error
err_schema_regression = plain "configuration schema cannot decrease"

abbrev pub err_durability_uncertain : Error
err_durability_uncertain = plain "configuration save outcome is uncertain"

abbrev pub err_exhausted : Error
err_exhausted = plain "configuration revision exhausted"

pub record Version : Type 0 where
  pub schema : ℕ
  pub revision : ℕ
  pub digest : ℕ

pub record Document : Type 0 where
  pub name : Bytes
  pub version : Version
  pub value : Bytes

-- sha256.Sum256, the length of json.Marshal, and the characters that validName allows.
pub record Encoding : Type 0 where
  pub sha256 : Bytes → ℕ
  pub json_length : Document → ℕ
  pub plain_text : Bytes → Bool

-- The table `documents`, by its primary key.
abbrev pub Documents : Type 0
Documents = List (Bytes × Document)

-- `excluded.version > documents.version`
unfoldable pub newer : Version → Version → Bool
newer a b =
    ltb b.schema a.schema
    || (a.schema == b.schema
        && (ltb b.revision a.revision || (a.revision == b.revision && ltb b.digest a.digest)))

unfoldable pub same_version : Version → Version → Bool
same_version a b = a.schema == b.schema && (a.revision == b.revision && a.digest == b.digest)

-- Token, the name and the version that it spells out; the empty text for a missing document.
abbrev pub Token : Type 0
Token = Option (Bytes × Version)

abbrev pub token : Option Document → Token
token none = none
token (some r) = some (r.name, r.version)

unfoldable pub same_token : Token → Token → Bool
same_token none none = true
same_token (some (n, v)) (some (m, w)) = n =? m && same_version v w
same_token _ _ = false

-- writeRecords, one row and all: the table and whether it changed.
unfoldable pub write_row : Document → Option Document → Documents → Documents × Bool
write_row r none docs = ((r.name, r) ∷ docs, true)
write_row r (some old) docs =
    if newer r.version old.version then (set_row r.name r docs, true) else (docs, false)

unfoldable pub write_records : List Document → Documents → Documents × Bool
write_records [] docs = (docs, false)
write_records (r ∷ rs) docs =
    let (docs', changed) = write_row r (find r.name docs) docs in
    let (docs'', more) = write_records rs docs' in (docs'', changed || more)

module _ ⦃c : Encoding⦄ where
  -- validName
  unfoldable pub valid_name : Bytes → Bool
  valid_name name =
      not (length name == 0) && (not (ltb max_name_bytes (length name)) && c.plain_text name)

  -- Validate
  unfoldable pub validate : Document → Option Error
  validate r =
      if not (valid_name r.name)
      then some err_invalid_record
      else if r.version.schema == 0 || r.version.revision == 0
      then some err_invalid_record
      else if ltb max_value_bytes (length r.value)
      then some err_too_large
      else if r.version.digest == c.sha256 r.value
      then none
      else some err_invalid_record

  -- NewRecord
  unfoldable pub checked : Document → Option Error → Result Document
  checked r none = ok r
  checked r (some e) = err e

  unfoldable pub new_record : Bytes → ℕ → ℕ → Bytes → Result Document
  new_record name schema revision value =
      if ltb max_value_bytes (length value)
      then err err_too_large
      else (let r : Document = record {
        name = name;
        version = record { schema = schema; revision = revision; digest = c.sha256 value };
        value = value;
      } in
          checked r (validate r))

  -- The loops of checkRecords and readRecords, from the `n`-th record on; `size` starts at the
  -- length of the empty envelope.
  abbrev pub grown : ℕ → ℕ → Document → ℕ
  grown n size r = if n == 0 then size + c.json_length r else size + c.json_length r + 1

  unfoldable pub bounded_from : ℕ → ℕ → List Document → Option Error
  bounded_from n size [] = none
  bounded_from n size (r ∷ rs) =
      let rest = bounded_from (suc n) (grown n size r) rs in
      elim (validate r) [
        | some e ↦ some e
        | none ↦ if ltb max_snapshot_bytes (grown n size r) then some err_too_large else rest
      ]

  unfoldable pub check_records : List Document → Option Error
  check_records rs =
      if ltb max_documents (length rs) then some err_too_large else bounded_from 0 25 rs

  unfoldable pub read_from : ℕ → ℕ → Documents → Option Error
  read_from n size [] = none
  read_from n size ((k, r) ∷ rs) =
      let rest = read_from (suc n) (grown n size r) rs in
      if n == max_documents then some err_too_large else elim (validate r) [
        | some e ↦ some e
        | none ↦ if ltb max_snapshot_bytes (grown n size r) then some err_too_large else rest
      ]

  -- readRecords, its error.
  unfoldable pub read_error : Documents → Option Error
  read_error docs = read_from 0 25 docs
