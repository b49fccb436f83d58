-- ===== src/Config/Revisions.antt =====
-- config/store.go: the document that Put makes, and why it refuses one.
use specter.Prelude.{
  ℕ, ◌+◌, ◌-◌, ◌^◌, ◌≤◌, ◌<◌, ◌≢◌, ◌≡◌, refl, subst, ◌∙◌, true, false, Option, none, some, inl, inr,
  [], ◌∷◌, Bytes, bytes_eq, bytes_beq, bytes_beq_iff, ◌=?◌, ltb, ◌==◌, nat_eq, if◌then◌else◌,
  length, Bool-cases, arith,
}
use specter.Errors.{Error, Result, ok, err}
use specter.Containers.{find}
use specter.Config.{
  Version, Document, Documents, Encoding, max_value_bytes, err_conflict, err_schema_regression,
  err_exhausted, err_too_large, newer, Token, token, same_token, write_records, validate, checked,
  new_record,
}
use specter.Config.Store.{revised}
use specter.Config.Order.{newest, newest-none, version_of, version_at, version_at-write_records}

-- A document of this name, schema and value, whose version wins over the current one.
pub record Revised (name : Bytes) (schema : ℕ) (value : Bytes) (current : Option Version)
    (r : Document) : Type 0 where
  pub named : r.name ≡ name
  pub valued : r.value ≡ value
  pub versioned : r.version.schema ≡ schema
  pub wins : newest current (some r.version) ≡ some r.version

newer_revision :
    (v w : Version) → ltb w.schema v.schema ≡ false → w.revision ≡ v.revision + 1 → newer w v ≡ true
unfolding newer
newer_revision v w s r = ground (arith, s, r)

-- The revision that a change takes.
abbrev pub next_revision : Option Document → ℕ
next_revision none = 1
next_revision (some d) = d.version.revision + 1

-- The current document allows a change to the schema.
abbrev pub Allows : ℕ → Option Document → Type 0
Allows schema none = Unit {0}
Allows schema (some d) = (d.version.schema ≤ schema) × (d.version.revision ≢ 2 ^ 64 - 1)

module _ ⦃c : Encoding⦄ where
  abbrev pub next_document : Bytes → ℕ → Bytes → Option Document → Document
  next_document name schema value current = record {
    name = name;
    version = record { schema = schema; revision = next_revision current; digest = c.sha256 value };
    value = value;
  }

  -- Why Put refuses a change: the token is another, the schema would decrease, the revisions are
  -- exhausted, the value is too large, or the new document is not valid.
  pub data Refusal (name : Bytes) (schema : ℕ) (value : Bytes) (expected : Token)
      (current : Option Document) : Error → Type 0 where
    conflict :
        same_token (token current) expected ≡ false
        → Refusal name schema value expected current err_conflict
    regression :
        {d : Document}
        → same_token (token current) expected ≡ true
        → current ≡ some d
        → schema < d.version.schema
        → Refusal name schema value expected current err_schema_regression
    exhausted :
        {d : Document}
        → same_token (token current) expected ≡ true
        → current ≡ some d
        → d.version.schema ≤ schema
        → d.version.revision ≡ 2 ^ 64 - 1
        → Refusal name schema value expected current err_exhausted
    too_large :
        same_token (token current) expected ≡ true
        → Allows schema current
        → max_value_bytes < length value
        → Refusal name schema value expected current err_too_large
    invalid :
        {e : Error}
        → same_token (token current) expected ≡ true
        → Allows schema current
        → validate (next_document name schema value current) ≡ some e
        → Refusal name schema value expected current e

  -- A document that was put, and the versions afterwards.
  pub record PutWell (name : Bytes) (schema : ℕ) (value : Bytes) (expected : Token)
      (docs new : Documents) (r : Document) : Type 0 where
    pub current_token : same_token (token (find name docs)) expected ≡ true
    pub is_next : r ≡ next_document name schema value (find name docs)
    pub revised_from : Revised name schema value (version_at name docs) r
    pub versions :
        (j : Bytes) → version_at j new ≡ (if name =? j then some r.version else version_at j docs)

  -- The table that a change is to lead to.
  abbrev pub put_table : Bytes → ℕ → Bytes → Documents → Documents
  put_table name schema value docs =
      (write_records (next_document name schema value (find name docs) ∷ []) docs).0

  pub versions_after :
      (name : Bytes) (schema : ℕ) (value : Bytes) (docs : Documents) (r : Document)
      → Revised name schema value (version_at name docs) r
      → (j : Bytes)
      → version_at j (write_records (r ∷ []) docs).0
        ≡ (if name =? j then some r.version else version_at j docs)
  versions_after name schema value docs r h j =
      version_at-write_records j (r ∷ []) docs
      ∙ rw h.named (elim (Bool-cases (bytes_beq name j)) [
        | inl e ↦ rw e (
            subst (λ k. newest (version_at k docs) (some r.version) ≡ some r.version)
              ((bytes_beq_iff name j).0 e) h.wins)
        | inr e ↦ rw e (newest-none (version_at j docs))
      ])

  pub next_document-Revised :
      (name value : Bytes) (schema : ℕ) (current : Option Document)
      → Allows schema current
      → Revised name schema value (version_of current) (next_document name schema value current)
  next_document-Revised name value schema none h = record {
    named = refl;
    valued = refl;
    versioned = refl;
    wins = refl;
  }
  next_document-Revised name value schema (some d) h = record {
    named = refl;
    valued = refl;
    versioned = refl;
    wins =
        rw
          (newer_revision d.version (next_document name schema value (some d)).version
            (ground (arith, h.0)) refl)
          refl;
  }

  -- What becomes of the next_document.
  pub data Made (name : Bytes) (schema : ℕ) (value : Bytes) (expected : Token)
      (current : Option Document) : Result Document → Type 0 where
    made :
        Allows schema current
        → Made name schema value expected current (ok (next_document name schema value current))
    unmade :
        {e : Error}
        → Refusal name schema value expected current e
        → Made name schema value expected current (err e)

  module _ (name : Bytes) (schema : ℕ) (value : Bytes) (expected : Token) where
    checked-Made :
        (current : Option Document) (o : Option Error)
        → same_token (token current) expected ≡ true
        → Allows schema current
        → validate (next_document name schema value current) ≡ o
        → Made name schema value expected current
            (checked (next_document name schema value current) o)
    unfolding checked
    checked-Made current none t h q = made h
    checked-Made current (some e) t h q = unmade (invalid t h q)

    new_record-Made :
        (current : Option Document)
        → same_token (token current) expected ≡ true
        → Allows schema current
        → Made name schema value expected current
            (new_record name schema (next_revision current) value)
    unfolding new_record
    new_record-Made current t h = elim (Bool-cases (ltb max_value_bytes (length value))) [
      | inl big ↦ rw big (unmade (too_large t h (ground (arith, big))))
      | inr fits ↦ rw fits (checked-Made current _ t h refl)
    ]

    pub revised-Made :
        (current : Option Document)
        → same_token (token current) expected ≡ true
        → Made name schema value expected current (revised name schema value current)
    unfolding revised
    revised-Made none t = new_record-Made none t tt
    revised-Made (some d) t = elim (Bool-cases (ltb schema d.version.schema)) [
      | inl older ↦ rw older (unmade (regression t refl (ground (arith, older))))
      | inr kept ↦ elim (Bool-cases (d.version.revision == 2 ^ 64 - 1)) [
        | inl last ↦
            rw (kept, last)
              (unmade (exhausted t refl (ground (arith, kept)) (ground (arith, last))))
        | inr more ↦
            rw (kept, more)
              (new_record-Made (some d) t (ground (arith, kept), λ e. ground (arith, more, e)))
      ]
    ]
