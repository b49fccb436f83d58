-- ===== src/Kv/Memory/Reads.antt =====
-- kv/memory/{simple,prefix,kv}.go: the reads, against the abstract map.
use specter.Prelude.{◌≡◌, Bytes, bytes_eq, arith, inl, inr, Option-cases}
use specter.Containers.{member}
use specter.Kv.Memory.{Backend, MemoryKv, lookup_val, get, prefix_list, prefix_contains}
use specter.Kv.Memory.Keys.{export_one}
use specter.Kv.Memory.View.{view}

module _ ⦃b : Backend⦄ where
  pub get-view : (k : Bytes) (m : MemoryKv) → get k m ≡ (view m k).simple
  unfolding get view
  get-view k m = ground arith

  pub prefix_contains-view : (k c : Bytes) (m : MemoryKv) → prefix_contains k c m ≡ (view m k).has c
  unfolding prefix_contains view
  prefix_contains-view k c m = ground arith

  pub member-prefix_list :
      (k c : Bytes) (m : MemoryKv) → member c (prefix_list k m) ≡ (view m k).has c
  unfolding prefix_list view
  member-prefix_list k c m = elim (Option-cases (lookup_val k m)) [
    | inl e ↦ ground (arith, e)
    | inr (v, e) ↦ ground (arith, e, b.sets.member-members c v.children)
  ]

  pub simple_value-export_one :
      (k : Bytes) (m : MemoryKv) → (export_one k m).simple_value ≡ (view m k).simple
  unfolding export_one view
  simple_value-export_one k m = ground arith

  pub lease_token-export_one :
      (k : Bytes) (m : MemoryKv) → (export_one k m).lease_token ≡ (view m k).lease
  unfolding export_one view
  lease_token-export_one k m = ground arith

  pub member-export_one :
      (k c : Bytes) (m : MemoryKv) → member c (export_one k m).prefix_children ≡ (view m k).has c
  unfolding export_one view
  member-export_one k c m = ground (arith, member-prefix_list k c m)

  -- The reads of a key return the parts of its abstract cell: the value, the children and each
  -- child, also those that Export gives.
  reads-view :
      (k c : Bytes) (m : MemoryKv)
      → (get k m ≡ (view m k).simple)
        × (prefix_contains k c m ≡ (view m k).has c)
        × (member c (prefix_list k m) ≡ (view m k).has c)
        × (member c (export_one k m).prefix_children ≡ (view m k).has c)
        × ((export_one k m).simple_value ≡ (view m k).simple)
        × ((export_one k m).lease_token ≡ (view m k).lease)
  reads-view k c m = (
    get-view k m,
    prefix_contains-view k c m,
    member-prefix_list k c m,
    member-export_one k c m,
    simple_value-export_one k m,
    lease_token-export_one k m,
  )
