-- ===== src/Kv/Sqlite.antt =====
-- kv/sqlite3/{kv,sqlutil,key_tracker,simple,prefix}.go: a store on SQLite tables. A statement
-- may fail with whatever error the driver gives; a transaction that does not commit leaves the
-- tables as they were.
pub mod Schema
pub mod PrefixRows
pub mod Transactions
pub mod Bits
pub mod Tracking
pub mod View
pub mod Refinement
pub mod Leases
pub mod Grants
pub mod Provider
pub mod Ranges
pub mod Removal
pub mod Imports
pub mod Transfer
pub mod Handover
pub mod Lease
pub mod ImportOne
use specter.Prelude.{
  ℕ, ◌^◌, ◌<◌, Bool, true, false, not, ◌&&◌, ◌||◌, Option, none, some, List, [], ◌∷◌, Bytes,
  bytes_eq, ltb, ◌==◌, if◌then◌else◌,
}
use specter.Prelude.Int.{ℤ, pos, negsuc}
use specter.Errors.{
  Error, Result, ok, err, chord, kv_prefix_conflict, kv_hash_fn_changed, kv_lease_conflict,
  kv_lease_expired, kv_lease_invalid_ttl,
}
use specter.Containers.{find}
use specter.Containers.Assoc.{without}
use specter.Kv.Lease.{duration_guard, next}
use specter.Kv.Sqlite.Schema.{
  Tables, Tracker, Flags, to_int64, from_int64, int_leb, int_beq, upsert, set_row, has_row,
  children, count, remove_row,
}

-- The statements of queries.go and the two ends of a transaction.
pub data Statement : Type 0 where
  begin commit : Statement
  simple_put simple_get simple_del : Statement
  prefix_append prefix_contains prefix_list prefix_remove prefix_count : Statement
  lease_acquire lease_renew lease_release lease_get lease_import : Statement
  tracker_lookup tracker_insert tracker_update tracker_delete : Statement
  list_keys range_keys_norm range_keys_wrap : Statement
  delete_simple delete_prefix delete_lease delete_tracker : Statement

-- The hash function of the store, with 64-bit hashes, and the failures of the database.
pub record Driver : Type 0 where
  pub hash_fn : Bytes → ℕ
  pub hash_word : (k : Bytes) → hash_fn k < 2 ^ 64
  pub fails : Statement → Tables → Option Error

-- A part of a transaction.
abbrev pub Tx : Type 0 → Type 0
Tx A = Tables → Result (Tables × A)

-- SimpleFlag, PrefixFlag, LeaseFlag
abbrev pub no_flags : Flags
no_flags = record { simple = false; prefix = false; lease = false }

abbrev pub simple_flag : Flags
simple_flag = record { simple = true; prefix = false; lease = false }

abbrev pub prefix_flag : Flags
prefix_flag = record { simple = false; prefix = true; lease = false }

abbrev pub lease_flag : Flags
lease_flag = record { simple = false; prefix = false; lease = true }

-- `flags != 0`
abbrev pub any_flag : Flags → Bool
any_flag f = f.simple || (f.prefix || f.lease)

-- `(flags | addFlags) &^ removeFlags`
unfoldable pub new_flags : Flags → Flags → Flags → Flags
new_flags f add remove = record {
  simple = (f.simple || add.simple) && not remove.simple;
  prefix = (f.prefix || add.prefix) && not remove.prefix;
  lease = (f.lease || add.lease) && not remove.lease;
}

-- PrefixFlag is not removed while children remain.
unfoldable pub cancel : Flags → ℕ → Flags
cancel remove n = if ltb 0 n then record remove { prefix = false } else remove

module _ {A : Type 0} where
  abbrev pub pure : A → Tx A
  pure a d = ok (d, a)

  abbrev pub fail : Error → Tx A
  fail e d = err e

  unfoldable pub answered : Option Error → Tables × A → Result (Tables × A)
  answered none r = ok r
  answered (some e) r = err e

unfoldable pub then_ : {A B : Type 0} → Result (Tables × A) → (A → Tx B) → Result (Tables × B)
then_ (err e) f = err e
then_ (ok (d, a)) f = f a d

infixl 5 ◌>>=◌
abbrev pub ◌>>=◌ : {A B : Type 0} → Tx A → (A → Tx B) → Tx B
◌>>=◌ m f d = then_ (m d) f

infixl 5 ◌>>◌
abbrev pub ◌>>◌ : {B : Type 0} → Tx (Unit {0}) → Tx B → Tx B
m >> k = m >>= λ _. k

module _ ⦃c : Driver⦄ where
  module _ {A : Type 0} where
    unfoldable pub exec : Statement → (Tables → Tables × A) → Tx A
    exec s run d = answered (c.fails s d) (run d)

    unfoldable pub committed : Tables → Tables × A → Option Error → Tables × Result A
    committed d (d', a) none = (d', ok a)
    committed d (d', a) (some e) = (d, err e)

    unfoldable pub ended : Tables → Result (Tables × A) → Tables × Result A
    ended d (err e) = (d, err e)
    ended d (ok (d', a)) = committed d (d', a) (c.fails commit d')

    unfoldable pub begun : Tx A → Tables → Option Error → Tables × Result A
    begun tx d (some e) = (d, err e)
    begun tx d none = ended d (tx d)

    -- withWriteTx
    unfoldable pub with_write_tx : Tx A → Tables → Tables × Result A
    with_write_tx tx d = begun tx d (c.fails begin d)

    -- A query; it has no transaction of its own or one that only reads.
    abbrev pub query : Statement → (Tables → A) → Tx A
    query s read = exec s (λ d. (d, read d))

  -- A statement that changes the tables.
  abbrev pub change : Statement → (Tables → Tables) → Tx (Unit {0})
  change s run = exec s (λ d. (run d, tt))

  unfoldable pub remaining_if : Bool → Bytes → Flags → Tx Flags
  remaining_if true key remove =
      query prefix_count (λ d. count key d.prefix_entries) >>= λ n. pure (cancel remove n)
  remaining_if false key remove = pure remove

  unfoldable pub remaining : Bytes → Flags → Tx Flags
  remaining key remove = remaining_if remove.prefix key remove

  unfoldable pub store_flags : Bytes → Tracker → Flags → Tx (Unit {0})
  store_flags key t flags =
      if any_flag flags
      then change tracker_update
          (λ d. record d { key_trackers = set_row key (record t { flags = flags }) d.key_trackers })
      else change tracker_delete (λ d. record d { key_trackers = without key d.key_trackers })

  -- updateKeyTracker, from the row that the lookup found.
  unfoldable pub tracker_from : Bytes → Flags → Flags → Option Tracker → Tx (Unit {0})
  tracker_from key add remove none =
      if any_flag add
      then change tracker_insert (λ d. record d {
        key_trackers =
            (key, record { hash = to_int64 (c.hash_fn key); flags = add }) ∷ d.key_trackers;
      })
      else pure tt
  tracker_from key add remove (some t) =
      if from_int64 t.hash == c.hash_fn key
      then (remaining key remove >>= λ remove'. store_flags key t (new_flags t.flags add remove'))
      else fail (chord kv_hash_fn_changed)

  unfoldable pub update_key_tracker : Bytes → Flags → Flags → Tx (Unit {0})
  update_key_tracker key add remove =
      query tracker_lookup (λ d. find key d.key_trackers) >>= tracker_from key add remove

  -- bindBytesAsBlob: nil is stored as an empty value.
  abbrev pub blob : Option Bytes → Bytes
  blob none = []
  blob (some v) = v

  -- Put
  unfoldable pub put_tx : Bytes → Option Bytes → Tx (Unit {0})
  put_tx key value =
      change simple_put
        (λ d. record d { simple_entries = upsert key (blob value) d.simple_entries })
      >> update_key_tracker key simple_flag no_flags

  unfoldable pub put : Bytes → Option Bytes → Tables → Tables × Result (Unit {0})
  put key value = with_write_tx (put_tx key value)

  -- Get
  unfoldable pub get : Bytes → Tables → Result (Option Bytes)
  get key d = elim (query simple_get (λ d. find key d.simple_entries) d) [
    | err e ↦ err e
    | ok r ↦ ok r.1
  ]

  -- Delete
  unfoldable pub delete_tx : Bytes → Tx (Unit {0})
  delete_tx key =
      change simple_del (λ d. record d { simple_entries = without key d.simple_entries })
      >> update_key_tracker key no_flags simple_flag

  unfoldable pub delete : Bytes → Tables → Tables × Result (Unit {0})
  delete key = with_write_tx (delete_tx key)

  -- RowsAffected
  unfoldable pub affected : Error → Tx (Unit {0}) → ℕ → Tx (Unit {0})
  affected failure rest n = if n == 0 then fail failure else rest

  -- INSERT … ON CONFLICT DO NOTHING, with the number of rows affected.
  unfoldable pub append_row : Bytes → Bytes → Tables → Tables × ℕ
  append_row prefix child d =
      if has_row prefix child d.prefix_entries
      then (d, 0)
      else (record d { prefix_entries = (prefix, child) ∷ d.prefix_entries }, 1)

  -- PrefixAppend
  unfoldable pub append_tx : Bytes → Bytes → Tx (Unit {0})
  append_tx prefix child =
      exec prefix_append (append_row prefix child)
      >>= affected (chord kv_prefix_conflict) (update_key_tracker prefix prefix_flag no_flags)

  unfoldable pub append : Bytes → Bytes → Tables → Tables × Result (Unit {0})
  append prefix child = with_write_tx (append_tx prefix child)

  -- PrefixContains
  unfoldable pub contains : Bytes → Bytes → Tables → Result Bool
  contains prefix child d =
      elim (query prefix_contains (λ d. has_row prefix child d.prefix_entries) d) [
        | err e ↦ err e
        | ok r ↦ ok r.1
      ]

  -- PrefixList
  unfoldable pub list : Bytes → Tables → Result (List Bytes)
  list prefix d = elim (query prefix_list (λ d. children prefix d.prefix_entries) d) [
    | err e ↦ err e
    | ok r ↦ ok r.1
  ]

  -- PrefixRemove
  unfoldable pub remove_tx : Bytes → Bytes → Tx (Unit {0})
  remove_tx prefix child =
      change prefix_remove
        (λ d. record d { prefix_entries = remove_row prefix child d.prefix_entries })
      >> update_key_tracker prefix no_flags prefix_flag

  unfoldable pub remove : Bytes → Bytes → Tables → Tables × Result (Unit {0})
  remove prefix child = with_write_tx (remove_tx prefix child)
