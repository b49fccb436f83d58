-- ===== src/Kv/Sqlite/Provider.antt =====
-- kv/sqlite3/provider.go: the operations on many keys. The texts of two errors leave out the numbers
-- that the source prints in them.
use specter.Prelude.{
  ℕ, zero, suc, Bool, true, false, not, ◌&&◌, ◌||◌, Option, none, some, List, [], ◌∷◌, ◌++◌, Bytes,
  bytes_eq, ltb, ◌==◌, if◌then◌else◌, length, nat_eq,
}
use specter.Prelude.Int.{ℤ}
use specter.Errors.{Result, ok, err, plain, panics}
use specter.Containers.{find}
use specter.Kv.Spec.{Transfer}
use specter.Kv.Memory.Keys.{has_prefix, KeyComposite, simple_key, prefix_key, lease_key}
use specter.Kv.Sqlite.Schema.{
  Tables, Tracker, Flags, to_int64, from_int64, int_leb, int_beq, upsert, children, delete_in,
  remove_prefixes,
}
use specter.Kv.Sqlite.{
  Driver, simple_put, prefix_append, lease_import, simple_get, prefix_list, lease_get,
  delete_simple, delete_prefix, delete_lease, delete_tracker, list_keys, range_keys_norm,
  range_keys_wrap, Tx, pure, fail, ◌>>=◌, ◌>>◌, with_write_tx, query, change, no_flags,
  update_key_tracker, append_row,
}

-- importedSimpleValue, of a value that is there.
unfoldable pub imported_simple_value : Transfer → Option Bytes
imported_simple_value t = elim t.simple_value [
  | some v ↦ some v
  | none ↦ if length t.prefix_children == 0 && t.lease_token == 0 then some [] else none
]

abbrev pub has_value : {V : Type 0} → Option V → Bool
has_value none = false
has_value (some v) = true

-- The flag that Import collects for a key.
unfoldable pub import_flags : Transfer → Flags
import_flags t = record {
  simple = has_value (imported_simple_value t);
  prefix = ltb 0 (length t.prefix_children);
  lease = not (t.lease_token == 0);
}

-- removeKeysBatchSize
abbrev pub batch_size : ℕ
batch_size = 200

module _ {V : Type 0} where
  -- `keys[start:end]`, and what is left.
  unfoldable pub batch : ℕ → List V → List V
  batch n [] = []
  batch zero (x ∷ xs) = []
  batch (suc n) (x ∷ xs) = x ∷ batch n xs

  unfoldable pub after : ℕ → List V → List V
  after n [] = []
  after zero (x ∷ xs) = x ∷ xs
  after (suc n) (x ∷ xs) = after n xs

-- ListKeys, one row.
unfoldable pub row_kinds : Bytes → Flags → List KeyComposite
row_kinds key f =
    (if f.simple then record { kind = simple_key; key = key } ∷ [] else [])
    ++ ((if f.prefix then record { kind = prefix_key; key = key } ∷ [] else [])
        ++ (if f.lease then record { kind = lease_key; key = key } ∷ [] else []))

unfoldable pub list_rows : Bytes → List (Bytes × Tracker) → List KeyComposite
list_rows prefix [] = []
list_rows prefix ((key, t) ∷ rest) =
    if has_prefix key prefix
    then row_kinds key t.flags ++ list_rows prefix rest
    else list_rows prefix rest

-- The WHERE clauses of queryRangeKeysNorm and queryRangeKeysWrap.
unfoldable pub in_range : Bool → ℤ → ℤ → ℤ → Bool
in_range true low high h = (not (int_leb h low) && not (int_leb high h)) || int_beq h high
in_range false low high h = not (int_leb h low) || (not (int_leb high h) || int_beq h high)

-- ORDER BY `hash` ASC
unfoldable pub insert_row : Bytes → ℤ → List (Bytes × ℤ) → List (Bytes × ℤ)
insert_row k h [] = (k, h) ∷ []
insert_row k h ((j, g) ∷ rest) =
    if int_leb h g then (k, h) ∷ (j, g) ∷ rest else (j, g) ∷ insert_row k h rest

unfoldable pub select_rows : Bool → ℤ → ℤ → List (Bytes × Tracker) → List (Bytes × ℤ)
select_rows norm low high [] = []
select_rows norm low high ((k, t) ∷ rest) =
    if in_range norm low high t.hash
    then insert_row k t.hash (select_rows norm low high rest)
    else select_rows norm low high rest

abbrev pub keys_of : List (Bytes × ℤ) → List Bytes
keys_of [] = []
keys_of ((k, h) ∷ rest) = k ∷ keys_of rest

module _ ⦃c : Driver⦄ where
  -- Import, one key and all.
  unfoldable pub import_simple : Bytes → Option Bytes → Tx (Unit {0})
  import_simple key none = pure tt
  import_simple key (some v) =
      change simple_put (λ d. record d { simple_entries = upsert key v d.simple_entries })

  unfoldable pub import_children : Bytes → List Bytes → Tx (Unit {0})
  import_children key [] = pure tt
  import_children key (child ∷ rest) =
      change prefix_append (λ d. (append_row key child d).0) >> import_children key rest

  unfoldable pub import_lease : Bytes → ℕ → Tx (Unit {0})
  import_lease key zero = pure tt
  import_lease key (suc n) =
      change lease_import
        (λ d. record d { lease_entries = upsert key (to_int64 (suc n)) d.lease_entries })

  unfoldable pub import_one : Bytes → Option Transfer → Tx (Unit {0})
  import_one key none = fail (plain "values[] is nil")
  import_one key (some t) =
      import_simple key (imported_simple_value t)
      >> (import_children key t.prefix_children
          >> (import_lease key t.lease_token >> update_key_tracker key (import_flags t) no_flags))

  unfoldable pub import_tx : List Bytes → List (Option Transfer) → Tx (Unit {0})
  import_tx [] values = pure tt
  import_tx (key ∷ keys) [] = fail panics
  import_tx (key ∷ keys) (value ∷ values) = import_one key value >> import_tx keys values

  unfoldable pub import : List Bytes → List (Option Transfer) → Tables → Tables × Result (Unit {0})
  import keys values d =
      if length keys == length values
      then with_write_tx (import_tx keys values) d
      else (d, err (plain "keys and values length mismatch"))

  -- Export, one key and all: a missing token is scanned as 0.
  unfoldable pub token_or_0 : Option ℤ → ℕ
  token_or_0 none = 0
  token_or_0 (some t) = from_int64 t

  unfoldable pub export_one : Bytes → Tx Transfer
  export_one key = query simple_get (λ d. find key d.simple_entries) >>= λ v.
      query prefix_list (λ d. children key d.prefix_entries) >>= λ cs.
      query lease_get (λ d. find key d.lease_entries) >>= λ t.
      pure (record { simple_value = v; prefix_children = cs; lease_token = token_or_0 t })

  unfoldable pub export_tx : List Bytes → Tx (List Transfer)
  export_tx [] = pure []
  export_tx (key ∷ keys) = export_one key >>= λ v. export_tx keys >>= λ vs. pure (v ∷ vs)

  -- withReadTx is the same code as withWriteTx.
  unfoldable pub export : List Bytes → Tables → Tables × Result (List Transfer)
  export keys = with_write_tx (export_tx keys)

  -- RemoveKeys
  unfoldable pub remove_batch : List Bytes → Tx (Unit {0})
  remove_batch ks =
      change delete_simple (λ d. record d { simple_entries = delete_in ks d.simple_entries })
      >> (change delete_prefix
            (λ d. record d { prefix_entries = remove_prefixes ks d.prefix_entries })
          >> (change delete_lease (λ d. record d { lease_entries = delete_in ks d.lease_entries })
              >> change delete_tracker
                  (λ d. record d { key_trackers = delete_in ks d.key_trackers })))

  -- The loop over the batches, in at most as many rounds as there are keys.
  unfoldable pub remove_batches : ℕ → List Bytes → Tx (Unit {0})
  remove_batches n [] = pure tt
  remove_batches zero (k ∷ ks) = fail panics
  remove_batches (suc n) (k ∷ ks) =
      remove_batch (batch batch_size (k ∷ ks)) >> remove_batches n (after batch_size (k ∷ ks))

  unfoldable pub remove_keys : List Bytes → Tables → Tables × Result (Unit {0})
  remove_keys [] d = (d, ok tt)
  remove_keys (k ∷ ks) d = with_write_tx (remove_batches (length (k ∷ ks)) (k ∷ ks)) d

  unfoldable pub result_of : {A : Type 0} → Result (Tables × A) → Result A
  result_of (err e) = err e
  result_of (ok (d, a)) = ok a

  -- ListKeys
  unfoldable pub list_keys_of : Bytes → Tables → Result (List KeyComposite)
  list_keys_of prefix d = result_of (query list_keys (λ d. list_rows prefix d.key_trackers) d)

  -- RangeKeys
  unfoldable pub range_keys : ℕ → ℕ → Tables → Result (List Bytes)
  range_keys low high d = result_of (
      query (if ltb low high then range_keys_norm else range_keys_wrap)
        (λ d. keys_of (select_rows (ltb low high) (to_int64 low) (to_int64 high) d.key_trackers)) d)
