-- ===== src/Kv/Memory.antt =====
-- kv/memory/{kv,simple,prefix}.go: the in-memory store. A key's bucket is found by its hash; the
-- bucket maps the key to a value with three parts, one for each kind of operation. Between a Load
-- and a CompareAndSwap of one operation on `simple` no other operation runs here; for leases the
-- steps stand apart.
pub mod Keys
pub mod Leases
pub mod Lookup
pub mod View
pub mod Refinement
pub mod Reads
pub mod Handover
pub mod Ranges
pub mod Exclusion
pub mod Outcomes
pub mod Grants
use specter.Prelude.{
  ℕ, Bool, true, false, ◌&&◌, not, Option, none, some, List, [], ◌∷◌, ◌++◌, map, Bytes, Eq, ltb,
  leb, ◌==◌, if◌then◌else◌, length, nat_eq, bytes_eq,
}
use specter.Prelude.Int.{ℤ, pos, negsuc}
use specter.Errors.{
  Error, Result, ok, err, chord, kv_prefix_conflict, kv_lease_conflict, kv_lease_expired,
  kv_lease_invalid_ttl,
}
use specter.Containers.{SkipMaps, SkipSets}
use specter.Kv.Lease.{duration_guard, next}
use specter.Ring.{between}

-- The container packages, and the hash function that the store was made with.
pub record Backend : Type 1 where
  pub maps : SkipMaps
  pub sets : SkipSets
  pub hash_fn : Bytes → ℕ

abbrev pub is_nil : Option Bytes → Bool
is_nil none = true
is_nil (some v) = false

module _ ⦃b : Backend⦄ where
  -- kvValue: `simple` is a byte slice, which may be nil.
  pub record KvValue : Type 0 where
    pub simple : Option Bytes
    pub lease : ℕ
    pub children : b.sets.Set Bytes

  -- newValueFunc
  unfoldable pub new_value : KvValue
  new_value = record { simple = none; lease = 0; children = b.sets.empty Bytes }

  -- isDeleted
  unfoldable pub is_deleted : KvValue → Bool
  is_deleted v = is_nil v.simple && (length (b.sets.members v.children) == 0 && v.lease == 0)

  -- MemoryKV, the part that changes: hash → key → value.
  abbrev pub Bucket : Type 0
  Bucket = b.maps.Map Bytes KvValue

  abbrev pub MemoryKv : Type 0
  MemoryKv = b.maps.Map ℕ Bucket

  -- WithHashFn
  unfoldable pub new_store : MemoryKv
  new_store = b.maps.empty ℕ Bucket

  -- LoadOrStoreLazy on the outer map with newInnerMapFunc.
  unfoldable pub load_or_new_bucket : ℕ → MemoryKv → Bucket
  load_or_new_bucket p m = elim (b.maps.load p m) [
    | none ↦ b.maps.empty Bytes KvValue
    | some bucket ↦ bucket
  ]

  -- LoadOrStoreLazy on a bucket with newValueFunc.
  unfoldable pub load_or_new_value : Bytes → Bucket → KvValue
  load_or_new_value key bucket = elim (b.maps.load key bucket) [ none ↦ new_value | some v ↦ v ]

  -- A change through the pointer to the value of a key.
  unfoldable pub write : Bytes → KvValue → MemoryKv → MemoryKv
  unfolding load_or_new_bucket
  write key v m =
      let p = b.hash_fn key in b.maps.store p (b.maps.store key v (load_or_new_bucket p m)) m

  -- fetchVal: the key is there afterwards, with the value that is returned.
  unfoldable pub fetch_val : Bytes → MemoryKv → MemoryKv × KvValue
  unfolding load_or_new_value
  fetch_val key m =
      let v = load_or_new_value key (load_or_new_bucket (b.hash_fn key) m) in (write key v m, v)

  -- lookupVal
  unfoldable pub lookup_val : Bytes → MemoryKv → Option KvValue
  lookup_val key m = elim (b.maps.load (b.hash_fn key) m) [
    | none ↦ none
    | some bucket ↦ b.maps.load key bucket
  ]

  -- deleteAll
  unfoldable pub delete_all : Bytes → MemoryKv → MemoryKv
  delete_all key m = elim (b.maps.load (b.hash_fn key) m) [
    | none ↦ m
    | some bucket ↦ b.maps.store (b.hash_fn key) (b.maps.delete key bucket) m
  ]

  -- Put
  unfoldable pub put : Bytes → Option Bytes → MemoryKv → MemoryKv × Option Error
  put key value m =
      let (m', v) = fetch_val key m in (write key (record v { simple = value }) m', none)

  -- Get
  unfoldable pub get : Bytes → MemoryKv → Option Bytes
  get key m = elim (lookup_val key m) [ none ↦ none | some v ↦ v.simple ]

  -- Delete
  unfoldable pub delete : Bytes → MemoryKv → MemoryKv × Option Error
  delete key m = let (m', v) = fetch_val key m in (write key (record v { simple = none }) m', none)

  -- PrefixAppend
  unfoldable pub prefix_append : Bytes → Bytes → MemoryKv → MemoryKv × Option Error
  prefix_append prefix child m =
      let (m', v) = fetch_val prefix m in
      if b.sets.contains child v.children
      then (m', some (chord kv_prefix_conflict))
      else (write prefix (record v { children = b.sets.add child v.children }) m', none)

  -- PrefixList
  unfoldable pub prefix_list : Bytes → MemoryKv → List Bytes
  prefix_list prefix m = elim (lookup_val prefix m) [
    | none ↦ []
    | some v ↦ b.sets.members v.children
  ]

  -- PrefixContains
  unfoldable pub prefix_contains : Bytes → Bytes → MemoryKv → Bool
  prefix_contains prefix child m = elim (lookup_val prefix m) [
    | none ↦ false
    | some v ↦ b.sets.contains child v.children
  ]

  -- PrefixRemove
  unfoldable pub prefix_remove : Bytes → Bytes → MemoryKv → MemoryKv × Option Error
  prefix_remove prefix needle m =
      let (m', v) = fetch_val prefix m in
      (write prefix (record v { children = b.sets.remove needle v.children }) m', none)
