-- ===== src/Config/Sync.antt =====
-- config/{sync,codec,store}.go: the exchange of two servers, with the snapshot that is sent as text.
use specter.Prelude.{ℕ, ◌≤◌, ◌≡◌, Option, none, some, List, Bytes, length, ltb, ◌==◌, if◌then◌else◌}
use specter.Errors.{Error, Result, ok, err, plain, wrapped, ◌>>=◌}
use specter.Config.{
  Document, Documents, Encoding, max_snapshot_bytes, err_too_large, err_durability_uncertain,
  check_records, read_error,
}
use specter.Config.Store.{Fate, failed_or, merge, snapshot}

-- The struct snapshot of codec.go; `records` may be null.
pub record Envelope : Type 0 where
  pub format : ℕ
  pub records : Option (List Document)

abbrev pub snapshot_format : ℕ
snapshot_format = 1

abbrev pub envelope : List Document → Envelope
envelope rs = record { format = snapshot_format; records = some rs }

-- json.Marshal and util.DecodeJSON. Records that pass checkRecords come back, and their text has the
-- length that checkRecords adds up.
pub record Json ⦃c : Encoding⦄ : Type 0 where
  pub marshal : Envelope → Result Bytes
  pub decode : Bytes → Result Envelope
  pub decode-marshal :
      (rs : List Document) (x : Bytes)
      → check_records rs ≡ none
      → marshal (envelope rs) ≡ ok x
      → decode x ≡ ok (envelope rs)
  pub marshal_bounded :
      (rs : List Document) (x : Bytes)
      → check_records rs ≡ none
      → marshal (envelope rs) ≡ ok x
      → length x ≤ max_snapshot_bytes

-- What becomes of a call of the peer: it does not reach it, its answer does not come back, or both do.
pub data Delivery : Type 0 where
  unsent unanswered : Error → Delivery
  delivered : Delivery

-- What the database of a server does in an exchange: in Merge, and in Snapshot, which takes a
-- connection and reads.
pub record Side : Type 0 where
  pub merging : Fate
  pub snapshot_conn : Option Error
  pub snapshot_read : Option Error

abbrev pub internal : Error → Error
internal e = wrapped "internal" e

abbrev pub err_format : Error
err_format = plain "unsupported configuration snapshot format"

-- client.Exchange, for the peer's documents before and what its handler does.
unfoldable pub received : Delivery → Documents → Documents × Result Bytes → Documents × Result Bytes
received (unsent e) b r = (b, err e)
received (unanswered e) b (b', r) = (b', err e)
received delivered b r = r

module _ ⦃c : Encoding⦄ where
  -- Snapshot, once the connection is there.
  unfoldable pub snapshot_read : Documents → Option Error → Result (List Document)
  snapshot_read docs (some e) = err err_durability_uncertain
  snapshot_read docs none = ok (snapshot docs)

  -- Snapshot
  unfoldable pub take_snapshot : Side → Documents → Result (List Document)
  take_snapshot side docs = elim side.snapshot_conn [
    | some e ↦ err e
    | none ↦ snapshot_read docs (failed_or side.snapshot_read (read_error docs))
  ]

  unfoldable pub checked_list : List Document → Option Error → Result (List Document)
  checked_list rs (some e) = err e
  checked_list rs none = ok rs

  unfoldable pub decode_state : Envelope → Result (List Document)
  decode_state state = elim state.records [
    | none ↦ err err_format
    | some rs ↦
        if state.format == snapshot_format
        then checked_list rs (check_records rs)
        else err err_format
  ]

module _ ⦃c : Encoding⦄ ⦃j : Json⦄ where
  unfoldable pub encode_checked : List Document → Option Error → Result Bytes
  encode_checked rs (some e) = err e
  encode_checked rs none = j.marshal (envelope rs)

  -- EncodeSnapshot
  unfoldable pub encode_snapshot : List Document → Result Bytes
  encode_snapshot rs = encode_checked rs (check_records rs)

  -- DecodeSnapshot
  unfoldable pub decode_snapshot : Bytes → Result (List Document)
  decode_snapshot data_ =
      if ltb max_snapshot_bytes (length data_) then err err_too_large else elim (j.decode data_) [
        | err e ↦ err (wrapped "decode configuration snapshot" e)
        | ok state ↦ decode_state state
      ]

  -- The method snapshot of Syncer.
  unfoldable pub syncer_snapshot : Side → Documents → Result Bytes
  syncer_snapshot side docs = take_snapshot side docs >>= encode_snapshot

  -- The end of Exchange: the peer's own snapshot.
  unfoldable pub response : Result Bytes → Result Bytes
  response (err e) = err (internal e)
  response (ok data_) = ok data_

  unfoldable pub respond : Side → Documents × Result (Unit {0}) → Documents × Result Bytes
  respond peer (b, err e) = (b, err (internal e))
  respond peer (b, ok done) = (b, response (syncer_snapshot peer b))

  -- Exchange, the handler of the peer.
  unfoldable pub handle_decoded :
      Side → Documents → Result (List Document) → Documents × Result Bytes
  handle_decoded peer b (err e) = (b, err (wrapped "invalid_argument" e))
  handle_decoded peer b (ok rs) = respond peer (merge peer.merging rs b)

  unfoldable pub handle_exchange : Side → Bytes → Documents → Documents × Result Bytes
  handle_exchange peer data_ b = handle_decoded peer b (decode_snapshot data_)

  unfoldable pub merge_decoded :
      Fate → Documents → Result (List Document) → Documents × Result (Unit {0})
  merge_decoded fate a (err e) = (a, err e)
  merge_decoded fate a (ok rs) = merge fate rs a

  unfoldable pub merge_answer : Fate → Documents → Result Bytes → Documents × Result (Unit {0})
  merge_answer fate a (err e) = (a, err e)
  merge_answer fate a (ok data_) = merge_decoded fate a (decode_snapshot data_)

  -- exchange, with the documents of both servers.
  unfoldable pub finished :
      Fate → Documents → Documents × Result Bytes → (Documents × Documents) × Result (Unit {0})
  finished fate a (b, answer) = let (a', r) = merge_answer fate a answer in ((a', b), r)

  unfoldable pub exchange :
      Delivery
      → Side
      → Side
      → Bytes
      → Documents
      → Documents
      → (Documents × Documents) × Result (Unit {0})
  exchange d own peer request a b =
      finished own.merging a (received d b (handle_exchange peer request b))

  -- sync with one peer: the snapshot, and its exchange, with no other writer in between.
  unfoldable pub exchange_from :
      Delivery
      → Side
      → Side
      → Documents
      → Documents
      → Result Bytes
      → (Documents × Documents) × Result (Unit {0})
  exchange_from d own peer a b (err e) = ((a, b), err e)
  exchange_from d own peer a b (ok request) = exchange d own peer request a b

  unfoldable pub sync :
      Delivery → Side → Side → Documents → Documents → (Documents × Documents) × Result (Unit {0})
  sync d own peer a b = exchange_from d own peer a b (syncer_snapshot own a)
