-- ===== src/Kv/Memory/Lookup.antt =====
-- kv/memory/kv.go: fetchVal, lookupVal and deleteAll as operations on one map from keys to values.
use specter.Prelude.{
  ◌≡◌, refl, Option, none, some, inl, inr, Bytes, ◌=?◌, if◌then◌else◌, nat_eq, bytes_eq, arith,
  Option-cases, bytes_beq_iff,
}
use specter.Kv.Memory.{
  Backend, KvValue, Bucket, MemoryKv, new_value, new_store, write, fetch_val, lookup_val,
  delete_all, load_or_new_bucket,
}

module _ ⦃b : Backend⦄ where
  -- The value of a key, or a new one: what an operation starts from.
  abbrev pub value_of : Option KvValue → KvValue
  value_of none = new_value
  value_of (some v) = v

  pub lookup_val-new_store : (k : Bytes) → lookup_val k new_store ≡ none
  unfolding lookup_val new_store
  lookup_val-new_store k = ground (arith, b.maps.load-empty {V = Bucket} (b.hash_fn k))

  pub lookup_val-write :
      (k j : Bytes) (v : KvValue) (m : MemoryKv)
      → lookup_val j (write k v m) ≡ (if k =? j then some v else lookup_val j m)
  unfolding lookup_val write load_or_new_bucket
  lookup_val-write k j v m = ground (
    arith,
    b.maps.load-store (b.hash_fn k) (b.hash_fn j)
        (b.maps.store k v (load_or_new_bucket (b.hash_fn k) m)) m,
    b.maps.load-store k j v (load_or_new_bucket (b.hash_fn k) m),
    b.maps.load-empty {V = KvValue} j,
    bytes_beq_iff k j,
  )

  pub fetch_val-value : (k : Bytes) (m : MemoryKv) → (fetch_val k m).1 ≡ value_of (lookup_val k m)
  unfolding fetch_val lookup_val load_or_new_bucket
  fetch_val-value k m = ground (arith, b.maps.load-empty {V = KvValue} k)

  pub lookup_val-fetch_val :
      (k j : Bytes) (m : MemoryKv)
      → lookup_val j (fetch_val k m).0
        ≡ (if k =? j then some (value_of (lookup_val k m)) else lookup_val j m)
  unfolding fetch_val
  lookup_val-fetch_val k j m = rw lookup_val-write (rw (← fetch_val-value k m) refl)

  pub lookup_val-delete_all :
      (k j : Bytes) (m : MemoryKv)
      → lookup_val j (delete_all k m) ≡ (if k =? j then none else lookup_val j m)
  unfolding lookup_val delete_all
  lookup_val-delete_all k j m = elim (Option-cases (b.maps.load (b.hash_fn k) m)) [
    | inl e ↦ rw (e, delete_all) (ground (arith, e, bytes_beq_iff k j))
    | inr (bucket, e) ↦ ground (
      arith,
      e,
      b.maps.load-store (b.hash_fn k) (b.hash_fn j) (b.maps.delete k bucket) m,
      b.maps.load-delete k j bucket,
      bytes_beq_iff k j,
    )
  ]
