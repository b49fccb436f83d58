-- ===== src/Kv/Memory/Ranges.antt =====
-- kv/memory/kv.go: RangeKeys, and the buckets that keys stand in.
use specter.Prelude.{
  ℕ, ◌≡◌, refl, ap, sym, ◌∙◌, ◌⊎◌, Bool, true, false, ◌&&◌, not, ◌||◌, Option, none, some, inl, inr,
  List, [], ◌∷◌, ◌++◌, Bytes, ◌=?◌, if◌then◌else◌, ◌==◌, nat_eq, bytes_eq, arith, Option-cases,
  bytes_beq_iff, ==_iff,
}
use specter.Ring.{between}
use specter.Containers.{find, KeysOnce, member}
use specter.Kv.Memory.{
  Backend, KvValue, Bucket, MemoryKv, is_deleted, write, delete_all, lookup_val, load_or_new_bucket,
  new_store,
}
use specter.Kv.Memory.Keys.{live_keys, range_buckets, range_keys}

module _ ⦃b : Backend⦄ where
  -- The value of a key in the bucket of a hash.
  unfoldable pub held : ℕ → Bytes → MemoryKv → Option KvValue
  held p k m = elim (b.maps.load p m) [ none ↦ none | some bucket ↦ b.maps.load k bucket ]

  -- A key that a bucket holds hashes to the bucket.
  pub record InBuckets (m : MemoryKv) : Type 0 where
    pub hashed : (p : ℕ) (k : Bytes) → ((b.hash_fn k == p) ≡ true) ⊎ (held p k m ≡ none)

  pub new_store-InBuckets : InBuckets new_store
  unfolding new_store held
  new_store-InBuckets = record { hashed = λ p k. ground (arith, b.maps.load-empty {V = Bucket} p) }

  held-write :
      (k j : Bytes) (p : ℕ) (v : KvValue) (m : MemoryKv)
      → held p j (write k v m)
        ≡ (if b.hash_fn k == p then (if k =? j then some v else held p j m) else held p j m)
  unfolding held write load_or_new_bucket
  held-write k j p v m = ground (
    arith,
    b.maps.load-store (b.hash_fn k) p (b.maps.store k v (load_or_new_bucket (b.hash_fn k) m)) m,
    b.maps.load-store k j v (load_or_new_bucket (b.hash_fn k) m),
    b.maps.load-empty {V = KvValue} j,
    bytes_beq_iff k j,
  )

  -- A write keeps every key in the bucket of its hash.
  pub write-InBuckets :
      (k : Bytes) (v : KvValue) (m : MemoryKv) → InBuckets m → InBuckets (write k v m)
  write-InBuckets k v m h = record {
    hashed = λ p j. ground (
      arith,
      h.hashed p j,
      held-write k j p v m,
      bytes_beq_iff k j,
      ap b.hash_fn {x = k} {y = j},
    );
  }

  held-delete_all :
      (k j : Bytes) (p : ℕ) (m : MemoryKv) → held p j m ≡ none → held p j (delete_all k m) ≡ none
  unfolding held delete_all
  held-delete_all k j p m h = elim (Option-cases (b.maps.load (b.hash_fn k) m)) [
    | inl e ↦ rw (e, delete_all) h
    | inr (bucket, e) ↦ ground (
      arith,
      e,
      b.maps.load-store (b.hash_fn k) p (b.maps.delete k bucket) m,
      b.maps.load-delete k j bucket,
      bytes_beq_iff k j,
    )
  ]

  pub delete_all-InBuckets : (k : Bytes) (m : MemoryKv) → InBuckets m → InBuckets (delete_all k m)
  delete_all-InBuckets k m h = record {
    hashed = λ p j. elim (h.hashed p j) [ inl e ↦ inl e | inr e ↦ inr (held-delete_all k j p m e) ];
  }

  abbrev pub alive : Option KvValue → Bool
  alive none = false
  alive (some v) = not (is_deleted v)

  member-live_keys :
      (k : Bytes) (es : List (Bytes × KvValue))
      → KeysOnce es
      → member k (live_keys es) ≡ alive (find k es)
  unfolding live_keys
  member-live_keys k [] h = refl
  member-live_keys k ((j, v) ∷ es) h =
      ground
        (arith, member-live_keys k es h.1, bytes_beq_iff j k, ap (λ x. find x es) {x = j} {y = k})

  member-append :
      (k : Bytes) (xs ys : List Bytes) → member k (xs ++ ys) ≡ (member k xs || member k ys)
  member-append k [] ys = refl
  member-append k (x ∷ xs) ys = ground (arith, member-append k xs ys)

  abbrev Placed : Bytes → List (ℕ × Bucket) → Type 0
  Placed k [] = Unit
  Placed k ((p, bucket) ∷ es) =
      (((b.hash_fn k == p) ≡ true) ⊎ (b.maps.load k bucket ≡ none)) × Placed k es

  entries-Placed :
      (k : Bytes) (es : List (ℕ × Bucket))
      → KeysOnce es
      → ((p : ℕ) (bucket : Bucket)
          → find p es ≡ some bucket
          → ((b.hash_fn k == p) ≡ true) ⊎ (b.maps.load k bucket ≡ none))
      → Placed k es
  entries-Placed k [] once h = tt
  entries-Placed k ((p, bucket) ∷ es) once h = (
    h p bucket (ground (arith, ==_iff p p)),
    entries-Placed k es once.1 (λ q bucket' e.
        h q bucket' (ground (arith, once.0, e, ap (λ x. find x es) {x = p} {y = q}))),
  )

  abbrev found_alive : Bytes → Option Bucket → Bool
  found_alive k none = false
  found_alive k (some bucket) = alive (b.maps.load k bucket)

  member-bucket :
      (k : Bytes) (bucket : Bucket)
      → member k (live_keys (b.maps.entries bucket)) ≡ alive (b.maps.load k bucket)
  member-bucket k bucket =
      member-live_keys k (b.maps.entries bucket) (b.maps.entries-KeysOnce bucket)
      ∙ ap alive (b.maps.find-entries k bucket)

  member-range_buckets :
      (low high : ℕ) (k : Bytes) (es : List (ℕ × Bucket))
      → KeysOnce es
      → Placed k es
      → member k (range_buckets low high es)
        ≡ (between low (b.hash_fn k) high true && found_alive k (find (b.hash_fn k) es))
  unfolding range_buckets
  member-range_buckets low high k [] once h = ground arith
  member-range_buckets low high k ((p, bucket) ∷ es) once h = ground (
    arith,
    member-range_buckets low high k es once.1 h.1,
    member-append k (live_keys (b.maps.entries bucket)) (range_buckets low high es),
    member-bucket k bucket,
    once.0,
    h.0,
    ap (λ x. find x es) {x = p} {y = b.hash_fn k},
    ap (λ x. between low x high true) {x = p} {y = b.hash_fn k},
  )

  placed :
      (k : Bytes) (m : MemoryKv)
      → InBuckets m
      → (p : ℕ) (bucket : Bucket) → b.maps.load p m ≡ some bucket
      → ((b.hash_fn k == p) ≡ true) ⊎ (b.maps.load k bucket ≡ none)
  unfolding held
  placed k m h p bucket e = ground (arith, h.hashed p k)

  -- Of a store whose keys are in the buckets of their hashes, RangeKeys lists a key exactly if
  -- its hash lies in (low, high] and its value is there and not deleted.
  pub member-range_keys :
      (low high : ℕ) (k : Bytes) (m : MemoryKv)
      → InBuckets m
      → member k (range_keys low high m)
        ≡ (between low (b.hash_fn k) high true && alive (lookup_val k m))
  unfolding range_keys lookup_val
  member-range_keys low high k m h =
      member-range_buckets low high k (b.maps.entries m) (b.maps.entries-KeysOnce m) (
        entries-Placed k (b.maps.entries m) (b.maps.entries-KeysOnce m)
          (λ p bucket e. placed k m h p bucket (sym (b.maps.find-entries p m) ∙ e)))
      ∙ ground (arith, b.maps.find-entries (b.hash_fn k) m)
