-- ===== src/Examples/Store.antt =====
-- A store with two keys, a held lease and a child, on association lists.
use specter.Prelude.{
  ◌+◌, ◌≡◌, refl, true, ◌&&◌, none, some, List, [], ◌∷◌, inl, if◌then◌else◌, arith, Bytes, length,
  bytes_eq,
}
use specter.Prelude.Int.{pos}
use specter.Ring.{between}
use specter.Errors.{ok, chord, kv_lease_conflict}
use specter.Containers.{member}
use specter.Containers.Assoc.{assoc_maps, list_sets}
use specter.Kv.Spec.{Mutation, spec_step, empty_cell}
use specter.Kv.Memory.{Backend, KvValue, MemoryKv, new_store, write, lookup_val}
use specter.Kv.Memory.Keys.{import, export, remove_keys, range_keys}
use specter.Kv.Memory.Leases.{acquire, finish, acquire_load}
use specter.Kv.Memory.View.{view}
use specter.Kv.Memory.Refinement.{seen, handle_mutation, handle_mutation-refines}
use specter.Kv.Memory.Handover.{handover}
use specter.Kv.Memory.Ranges.{
  InBuckets, new_store-InBuckets, write-InBuckets, member-range_keys, alive,
}
use specter.Kv.Lease.{duration_guard}
use specter.Kv.Memory.Grants.{acquire_granted}
use specter.Kv.Memory.Exclusion.{Refused, acquire_excluded}
use specter.Kv.Memory.Outcomes.{Acquired, acquire-Acquired}

-- A hash by the length of the key.
instance abbrev pub backend : Backend
backend = record { maps = assoc_maps; sets = list_sets; hash_fn = λ k. length k }

abbrev leased : KvValue
leased = record { simple = none; lease = 5000000000; children = [] }

abbrev parent : KvValue
parent = record { simple = some (7 ∷ []); lease = 0; children = (8 ∷ []) ∷ [] }

abbrev store : MemoryKv
store = write (1 ∷ []) leased (write (1 ∷ 2 ∷ []) parent new_store)

store-InBuckets : InBuckets store
store-InBuckets =
    write-InBuckets (1 ∷ []) leased _
      (write-InBuckets (1 ∷ 2 ∷ []) parent new_store new_store-InBuckets)

handle_mutation-refines_example :
    seen (handle_mutation (Mutation.prefix_append (1 ∷ 2 ∷ []) (8 ∷ [])) store)
    ≡ spec_step (Mutation.prefix_append (1 ∷ 2 ∷ []) (8 ∷ [])) (view store)
handle_mutation-refines_example =
    handle_mutation-refines (Mutation.prefix_append (1 ∷ 2 ∷ []) (8 ∷ [])) store

abbrev moving : List Bytes
moving = (1 ∷ []) ∷ (1 ∷ 2 ∷ []) ∷ []

handover_example :
    (receiver : MemoryKv) × (import moving (export moving store) new_store ≡ some receiver)
    × ((j : Bytes) → view receiver j ≡ (if member j moving then view store j else view new_store j))
    × ((j : Bytes)
        → view (remove_keys moving store) j
          ≡ (if member j moving then empty_cell else view store j))
handover_example =
    handover moving store new_store (λ k h. inl (unfold view new_store lookup_val in refl))

member-range_keys_example :
    member (1 ∷ 2 ∷ []) (range_keys 1 3 store)
    ≡ (between 1 (backend.hash_fn (1 ∷ 2 ∷ [])) 3 true && alive (lookup_val (1 ∷ 2 ∷ []) store))
member-range_keys_example = member-range_keys 1 3 (1 ∷ 2 ∷ []) store store-InBuckets

store-lease : (view store (1 ∷ [])).lease ≡ 5000000000
store-lease = unfold view write lookup_val new_store in refl

acquire_excluded_example : Refused store (
    finish
      (1 ∷ [])
      (chord kv_lease_conflict)
      (store, (acquire_load (1 ∷ []) (pos 2000000000) (pos 1000) new_store).1))
acquire_excluded_example =
    acquire_excluded (1 ∷ []) (pos 2000000000) 1000 2000 5000000000 (chord kv_lease_conflict)
      new_store store (omega arith) (omega arith) store-lease (omega arith)

acquire-Acquired_example :
    Acquired (1 ∷ []) 5000000001 store (acquire (1 ∷ []) (pos 2000000000) (pos 5000000001) store)
acquire-Acquired_example = acquire-Acquired (1 ∷ []) (pos 2000000000) 5000000001 store (omega arith)

two_seconds : duration_guard (pos 2000000000) ≡ some 2000000000
two_seconds = unfold duration_guard in refl

acquire_granted_example :
    (acquire (1 ∷ []) (pos 2000000000) (pos 5000000001) store).1 ≡ ok (5000000001 + 2000000000)
acquire_granted_example =
    acquire_granted (1 ∷ []) 2000000000 2000000000 5000000001 store two_seconds (omega arith)
      (omega (arith, store-lease))
