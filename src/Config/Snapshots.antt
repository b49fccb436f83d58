-- ===== src/Config/Snapshots.antt =====
-- config/{sync,codec,store}.go: the text of a snapshot, and why there is none.
use specter.Prelude.{
  ◌≡◌, refl, false, Option, none, some, inl, inr, Bytes, bytes_eq, ◌≤◌, length, ltb, arith,
}
use specter.Errors.{Error, Result, ok, err, ◌>>=◌}
use specter.Config.{
  Documents, Encoding, err_durability_uncertain, max_snapshot_bytes, check_records, read_error,
}
use specter.Config.Store.{failed_or, snapshot}
use specter.Config.Writes.{failed_or-some}
use specter.Config.Sync.{
  Json, envelope, Side, snapshot_read, take_snapshot, checked_list, decode_state, encode_checked,
  encode_snapshot, decode_snapshot, syncer_snapshot,
}

module _ ⦃c : Encoding⦄ ⦃j : Json⦄ where
  -- Why a server has no snapshot to send: it gets no connection, it cannot read, what it has stored is
  -- not valid or too large, or the text cannot be written.
  pub data NoSnapshot (side : Side) (docs : Documents) : Error → Type 0 where
    no_conn : {e : Error} → side.snapshot_conn ≡ some e → NoSnapshot side docs e
    no_read :
        {e : Error} → side.snapshot_read ≡ some e → NoSnapshot side docs err_durability_uncertain
    unsound_read :
        {e : Error} → read_error docs ≡ some e → NoSnapshot side docs err_durability_uncertain
    refused_list : {e : Error} → check_records (snapshot docs) ≡ some e → NoSnapshot side docs e
    no_text : {e : Error} → j.marshal (envelope (snapshot docs)) ≡ err e → NoSnapshot side docs e

  -- The text of a snapshot, which is decoded to the records of the documents.
  pub record IsSnapshot (docs : Documents) (x : Bytes) : Type 0 where
    pub valid : check_records (snapshot docs) ≡ none
    pub decoded : decode_snapshot x ≡ ok (snapshot docs)

  -- What snapshot gives.
  pub data Snapped (side : Side) (docs : Documents) : Result Bytes → Type 0 where
    snapped : {x : Bytes} → IsSnapshot docs x → Snapped side docs (ok x)
    no_snapshot : {e : Error} → NoSnapshot side docs e → Snapped side docs (err e)

  fits : (x : Bytes) → length x ≤ max_snapshot_bytes → ltb max_snapshot_bytes (length x) ≡ false
  fits x h = ground arith

  marshalled-Snapped :
      (side : Side) (docs : Documents) (r : Result Bytes)
      → check_records (snapshot docs) ≡ none
      → j.marshal (envelope (snapshot docs)) ≡ r
      → Snapped side docs r
  unfolding decode_snapshot decode_state checked_list
  marshalled-Snapped side docs (err e) valid q = no_snapshot (no_text q)
  marshalled-Snapped side docs (ok x) valid q = snapped (record {
    valid = valid;
    decoded =
        rw
          (
            fits x (j.marshal_bounded (snapshot docs) x valid q),
            j.decode-marshal (snapshot docs) x valid q,
            valid,
          )
          refl;
  })

  encoded-Snapped :
      (side : Side) (docs : Documents) (o : Option Error)
      → check_records (snapshot docs) ≡ o
      → Snapped side docs (encode_checked (snapshot docs) o)
  unfolding encode_checked
  encoded-Snapped side docs none q = marshalled-Snapped side docs _ q refl
  encoded-Snapped side docs (some e) q = no_snapshot (refused_list q)

  read-Snapped :
      (side : Side) (docs : Documents) (o : Option Error)
      → failed_or side.snapshot_read (read_error docs) ≡ o
      → Snapped side docs (snapshot_read docs o >>= encode_snapshot)
  unfolding snapshot_read encode_snapshot
  read-Snapped side docs none q = encoded-Snapped side docs _ refl
  read-Snapped side docs (some e) q =
      elim (failed_or-some side.snapshot_read (read_error docs) e q) [
        | inl h ↦ no_snapshot (no_read h)
        | inr h ↦ no_snapshot (unsound_read h)
      ]

  pub syncer_snapshot-Snapped :
      (side : Side) (docs : Documents) → Snapped side docs (syncer_snapshot side docs)
  unfolding syncer_snapshot take_snapshot
  syncer_snapshot-Snapped side docs = by_conn side.snapshot_conn refl
    where
      by_conn :
          (o : Option Error)
          → side.snapshot_conn ≡ o
          → Snapped side docs (
              (elim o [
                | some e ↦ err e
                | none ↦ snapshot_read docs (failed_or side.snapshot_read (read_error docs))
              ])
              >>= encode_snapshot)
      by_conn none q = read-Snapped side docs _ refl
      by_conn (some e) q = no_snapshot (no_conn q)
