-- ===== src/Config/Saves.antt =====
-- config/store.go: how Put ends.
use specter.Prelude.{
  ℕ, ◌≡◌, refl, true, Option, none, some, inl, inr, [], ◌∷◌, Bytes, bytes_eq, nat_eq, Bool-cases,
}
use specter.Errors.{Error, Result, ok, err, ◌>>=◌}
use specter.Containers.{find}
use specter.Config.{
  Document, Documents, Encoding, err_conflict, Token, token, same_token, write_records, read_error,
}
use specter.Config.Store.{Fate, upserted, changed_by, put_found, put_change, put}
use specter.Config.Writes.{
  Written, database, rejected, select_failed, upsert_failed, changed_by-Written, refused_by-Written,
  write-Written,
}
use specter.Config.Order.{unchanged_records}
use specter.Config.Revisions.{
  Allows, next_document, Refusal, conflict, PutWell, put_table, Made, made, unmade, revised-Made,
  next_document-Revised, versions_after,
}

module _ ⦃c : Encoding⦄ where
  module _ (name : Bytes) (schema : ℕ) (value : Bytes) (expected : Token) where
    module _ (fate : Fate) (docs : Documents) where
      abbrev new : Documents
      new = put_table name schema value docs

      abbrev Ends : Documents × Result Document → Type 0
      Ends =
          Written (PutWell name schema value expected docs new)
            (Refusal name schema value expected (find name docs)) fate docs new

      allowed_put :
          same_token (token (find name docs)) expected ≡ true
          → Allows schema (find name docs)
          → PutWell name schema value expected docs new
              (next_document name schema value (find name docs))
      allowed_put t h =
          let fine = next_document-Revised name value schema (find name docs) h in
          record {
            current_token = t;
            is_next = refl;
            revised_from = fine;
            versions =
                versions_after name schema value docs
                  (next_document name schema value (find name docs)) fine;
          }

      module _ (sound : read_error docs ≡ none) where
        upserted-Written :
            (o : Option Error)
            → fate.upsert ≡ o
            → same_token (token (find name docs)) expected ≡ true
            → Allows schema (find name docs)
            → let r = next_document name schema value (find name docs) in
              Ends (changed_by fate docs (upserted o (r ∷ []) docs >>= λ written. ok (written, r)))
        unfolding upserted
        upserted-Written none q t h =
            let r = next_document name schema value (find name docs) in
            changed_by-Written _ _ fate docs new sound (write_records (r ∷ []) docs).1 r
              (allowed_put t h) (unchanged_records (r ∷ []) docs)
        upserted-Written (some e) q t h =
            refused_by-Written _ _ fate docs new sound e (database (upsert_failed q))

        put_end :
            (m : Result Document)
            → same_token (token (find name docs)) expected ≡ true
            → Made name schema value expected (find name docs) m
            → Ends (
                changed_by fate docs
                  (m >>= λ r. upserted fate.upsert (r ∷ []) docs >>= λ written. ok (written, r)))
        put_end _ t (made h) = upserted-Written fate.upsert refl t h
        put_end _ t (unmade {e} why) =
            refused_by-Written _ _ fate docs new sound e (rejected sound why)

        found-Written :
            Ends (
              changed_by fate docs
                (put_found fate name schema value expected (find name docs) docs))
        unfolding put_found
        found-Written = elim (Bool-cases (same_token (token (find name docs)) expected)) [
          | inl t ↦ rw t (put_end _ t (revised-Made name schema value expected (find name docs) t))
          | inr t ↦ rw t (
              refused_by-Written _ _ fate docs new sound err_conflict (rejected sound (conflict t)))
        ]

        selected-Written :
            (o : Option Error)
            → fate.select ≡ o
            → Ends (
                changed_by fate docs (elim o [
                  | some e ↦ err e
                  | none ↦ put_found fate name schema value expected (find name docs) docs
                ]))
        selected-Written none q = found-Written
        selected-Written (some e) q =
            refused_by-Written _ _ fate docs new sound e (database (select_failed q))

  -- With the table that has the document of the given name, schema and value, the next revision
  -- and the digest of the value written, Put ends in one of these outcomes: that table is stored
  -- and the call succeeds with that document, the expected token is the current one, the version
  -- of the document wins over the current one, the versions of the other names stay, and the
  -- documents were valid and within bounds and are; or the table is as before, because a step of
  -- the database failed, the stored documents are not valid or too large, those of that table
  -- would be, or, on stored documents that are, the expected token is another, the schema would
  -- decrease, the revisions are exhausted, the value is too large or the new document is not
  -- valid; or Commit failed but kept that table, and the error says that the outcome is
  -- uncertain.
  pub put-Written :
      (fate : Fate) (name : Bytes) (schema : ℕ) (value : Bytes) (expected : Token)
      (docs : Documents)
      → let new = put_table name schema value docs in
        Written
          (PutWell name schema value expected docs new)
          (Refusal name schema value expected (find name docs))
          fate
          docs
          new
          (put fate name schema value expected docs)
  unfolding put put_change
  put-Written fate name schema value expected docs =
      write-Written _ _ fate docs (put_table name schema value docs)
        (put_change fate name schema value expected)
        (λ sound. selected-Written name schema value expected fate docs sound fate.select refl)
