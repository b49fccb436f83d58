-- ===== src/Config/Store.antt =====
-- config/store.go: Put, Merge and what Snapshot lists, on a database whose steps may fail.
use specter.Prelude.{
  ℕ, ◌+◌, ◌-◌, ◌^◌, Bool, true, false, ◌&&◌, ◌||◌, Option, none, some, List, [], ◌∷◌, Bytes,
  bytes_eq, ltb, ◌==◌, if◌then◌else◌, nat_eq,
}
use specter.Errors.{Error, Result, ok, err, ◌>>=◌}
use specter.Containers.{find}
use specter.Config.{
  err_conflict, err_schema_regression, err_durability_uncertain, err_exhausted, Document, Encoding,
  Documents, Token, token, same_token, write_records, new_record, check_records, read_error,
}

-- How Commit ends: with an error it may or may not have kept the change.
pub data Commit : Type 0 where
  durable : Commit
  unsure : Bool → Commit

-- What the database does in one call of write: which of its steps fail, in their order. `select` and
-- `upsert` are the statements of readRecord and writeRecords inside of the change.
pub record Fate : Type 0 where
  pub conn : Option Error
  pub begin : Option Error
  pub read : Option Error
  pub select : Option Error
  pub upsert : Option Error
  pub reread : Option Error
  pub no_rollback : Bool
  pub commit : Commit

abbrev pub no_failure : Fate
no_failure = record {
  conn = none;
  begin = none;
  read = none;
  select = none;
  upsert = none;
  reread = none;
  no_rollback = false;
  commit = durable;
}

-- The error of the database, or else that of what was read.
unfoldable pub failed_or : Option Error → Option Error → Option Error
failed_or (some e) found = some e
failed_or none found = found

module _ {A : Type 0} where
  -- The end of write without a change: Rollback, and the error so far.
  unfoldable pub abandoned : Fate → Documents → Result A → Documents × Result A
  abandoned fate docs r = (docs, if fate.no_rollback then err err_durability_uncertain else r)

  -- The commit.
  unfoldable pub committed : Commit → Documents → Documents → A → Documents × Result A
  committed durable docs docs' a = (docs', ok a)
  committed (unsure kept) docs docs' a =
      (if kept then docs' else docs, err err_durability_uncertain)

  module _ ⦃c : Encoding⦄ where
    unfoldable pub reread : Fate → Documents → Documents → A → Option Error → Documents × Result A
    reread fate docs docs' a none = committed fate.commit docs docs' a
    reread fate docs docs' a (some e) = abandoned fate docs (err e)

    unfoldable pub changed_by :
        Fate → Documents → Result ((Documents × Bool) × A) → Documents × Result A
    changed_by fate docs (err e) = abandoned fate docs (err e)
    changed_by fate docs (ok ((docs', true), a)) =
        reread fate docs docs' a (failed_or fate.reread (read_error docs'))
    changed_by fate docs (ok ((docs', false), a)) = abandoned fate docs (ok a)

    unfoldable pub first_read :
        Fate
        → (Documents → Result ((Documents × Bool) × A))
        → Documents
        → Option Error
        → Documents × Result A
    first_read fate change docs none = changed_by fate docs (change docs)
    first_read fate change docs (some e) = abandoned fate docs (err e)

    unfoldable pub begun :
        Fate
        → (Documents → Result ((Documents × Bool) × A))
        → Documents
        → Option Error
        → Documents × Result A
    begun fate change docs (some e) = (docs, err err_durability_uncertain)
    begun fate change docs none =
        first_read fate change docs (failed_or fate.read (read_error docs))

    -- write
    unfoldable pub connected :
        Fate
        → (Documents → Result ((Documents × Bool) × A))
        → Documents
        → Option Error
        → Documents × Result A
    connected fate change docs (some e) = (docs, err e)
    connected fate change docs none = begun fate change docs fate.begin

    unfoldable pub write :
        Fate → (Documents → Result ((Documents × Bool) × A)) → Documents → Documents × Result A
    write fate change docs = connected fate change docs fate.conn

-- writeRecords, whose statement fails or not.
unfoldable pub upserted : Option Error → List Document → Documents → Result (Documents × Bool)
upserted (some e) rs docs = err e
upserted none rs docs = ok (write_records rs docs)

module _ ⦃c : Encoding⦄ where
  -- Put
  unfoldable pub revised : Bytes → ℕ → Bytes → Option Document → Result Document
  revised name schema value none = new_record name schema 1 value
  revised name schema value (some current) =
      if ltb schema current.version.schema
      then err err_schema_regression
      else if current.version.revision == 2 ^ 64 - 1
      then err err_exhausted
      else new_record name schema (current.version.revision + 1) value

  unfoldable pub put_found :
      Fate
      → Bytes
      → ℕ
      → Bytes
      → Token
      → Option Document
      → Documents
      → Result ((Documents × Bool) × Document)
  put_found fate name schema value expected current docs =
      if same_token (token current) expected
      then (revised name schema value current >>= λ r.
          upserted fate.upsert (r ∷ []) docs >>= λ written. ok (written, r))
      else err err_conflict

  unfoldable pub put_change :
      Fate → Bytes → ℕ → Bytes → Token → Documents → Result ((Documents × Bool) × Document)
  put_change fate name schema value expected docs = elim fate.select [
    | some e ↦ err e
    | none ↦ put_found fate name schema value expected (find name docs) docs
  ]

  unfoldable pub put : Fate → Bytes → ℕ → Bytes → Token → Documents → Documents × Result Document
  put fate name schema value expected docs =
      write fate (put_change fate name schema value expected) docs

  -- Merge
  unfoldable pub merge_change :
      Fate → List Document → Documents → Result ((Documents × Bool) × Unit {0})
  merge_change fate rs docs = upserted fate.upsert rs docs >>= λ written. ok (written, tt)

  unfoldable pub merge_checked :
      Fate → List Document → Option Error → Documents → Documents × Result (Unit {0})
  merge_checked fate rs (some e) docs = (docs, err e)
  merge_checked fate rs none docs = write fate (merge_change fate rs) docs

  unfoldable pub merge : Fate → List Document → Documents → Documents × Result (Unit {0})
  merge fate rs docs = merge_checked fate rs (check_records rs) docs

-- `ORDER BY name`, by the bytes of the names.
unfoldable pub name_leb : Bytes → Bytes → Bool
name_leb [] m = true
name_leb (x ∷ xs) [] = false
name_leb (x ∷ xs) (y ∷ ys) = ltb x y || (x == y && name_leb xs ys)

unfoldable pub insert_by_name : Document → List Document → List Document
insert_by_name r [] = r ∷ []
insert_by_name r (x ∷ xs) = if name_leb r.name x.name then r ∷ x ∷ xs else x ∷ insert_by_name r xs

-- The records of Snapshot.
unfoldable pub snapshot : Documents → List Document
snapshot [] = []
snapshot ((k, r) ∷ rest) = insert_by_name r (snapshot rest)
