-- ===== src/Kv/Memory/Keys.antt =====
-- kv/memory/kv.go: the operations on many keys, by which nodes hand keys over and list them.
use specter.Prelude.{
  ℕ, Bool, true, false, ◌&&◌, Option, none, some, List, [], ◌∷◌, ◌++◌, map, Bytes, ltb, ◌==◌,
  if◌then◌else◌, length, nat_eq, bytes_eq,
}
use specter.Ring.{between}
use specter.Kv.Spec.{Transfer}
use specter.Kv.Memory.{
  Backend, KvValue, Bucket, MemoryKv, is_nil, is_deleted, write, fetch_val, lookup_val, delete_all,
  prefix_list,
}

-- strings.HasPrefix
abbrev pub has_prefix : Bytes → Bytes → Bool
has_prefix key [] = true
has_prefix [] (p ∷ ps) = false
has_prefix (k ∷ ks) (p ∷ ps) = k == p && has_prefix ks ps

-- protocol.KeyComposite
pub data KeyKind : Type 0 where
  simple_key prefix_key lease_key : KeyKind

pub record KeyComposite : Type 0 where
  pub kind : KeyKind
  pub key : Bytes

module _ ⦃b : Backend⦄ where
  unfoldable pub add_all : List Bytes → b.sets.Set Bytes → b.sets.Set Bytes
  add_all [] s = s
  add_all (child ∷ rest) s = add_all rest (b.sets.add child s)

  -- Import: one round for each key. A key without a value is an index out of range, a panic.
  unfoldable pub import : List Bytes → List Transfer → MemoryKv → Option MemoryKv
  import [] values m = some m
  import (key ∷ keys) [] m = none
  import (key ∷ keys) (value ∷ values) m =
      let (m', v) = fetch_val key m in
      import keys values (
        write key
          (record {
            simple = value.simple_value;
            lease = value.lease_token;
            children = add_all value.prefix_children v.children;
          })
          m')

  -- Export, of one key and of all.
  unfoldable pub export_one : Bytes → MemoryKv → Transfer
  export_one key m = elim (lookup_val key m) [
    | none ↦ record { simple_value = none; prefix_children = []; lease_token = 0 }
    | some v ↦ record {
      simple_value = v.simple;
      prefix_children = prefix_list key m;
      lease_token = v.lease;
    }
  ]

  unfoldable pub export : List Bytes → MemoryKv → List Transfer
  export keys m = map (λ key. export_one key m) keys

  -- RemoveKeys
  unfoldable pub remove_keys : List Bytes → MemoryKv → MemoryKv
  remove_keys [] m = m
  remove_keys (key ∷ keys) m = remove_keys keys (delete_all key m)

  -- The inner loop of RangeKeys.
  unfoldable pub live_keys : List (Bytes × KvValue) → List Bytes
  live_keys [] = []
  live_keys ((key, v) ∷ rest) = if is_deleted v then live_keys rest else key ∷ live_keys rest

  -- RangeKeys: the live keys of the buckets whose hash lies in (low, high].
  unfoldable pub range_buckets : ℕ → ℕ → List (ℕ × Bucket) → List Bytes
  range_buckets low high [] = []
  range_buckets low high ((id, bucket) ∷ rest) =
      let others = range_buckets low high rest in
      if between low id high true then live_keys (b.maps.entries bucket) ++ others else others

  unfoldable pub range_keys : ℕ → ℕ → MemoryKv → List Bytes
  unfolding range_buckets
  range_keys low high m = range_buckets low high (b.maps.entries m)

  -- ListKeys: what one value adds.
  key_kinds : Bytes → KvValue → List KeyComposite
  key_kinds key v =
      (if is_nil v.simple then [] else record { kind = simple_key; key = key } ∷ [])
      ++ ((if ltb 0 (length (b.sets.members v.children))
            then record { kind = prefix_key; key = key } ∷ []
            else [])
          ++ (if v.lease == 0 then [] else record { kind = lease_key; key = key } ∷ []))

  list_bucket : Bytes → List (Bytes × KvValue) → List KeyComposite
  unfolding key_kinds
  list_bucket prefix [] = []
  list_bucket prefix ((key, v) ∷ rest) =
      if has_prefix key prefix
      then key_kinds key v ++ list_bucket prefix rest
      else list_bucket prefix rest

  list_buckets : Bytes → List (ℕ × Bucket) → List KeyComposite
  unfolding list_bucket
  list_buckets prefix [] = []
  list_buckets prefix ((id, bucket) ∷ rest) =
      list_bucket prefix (b.maps.entries bucket) ++ list_buckets prefix rest

  unfoldable pub list_keys : Bytes → MemoryKv → List KeyComposite
  unfolding list_buckets
  list_keys prefix m = list_buckets prefix (b.maps.entries m)
