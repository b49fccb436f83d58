-- ===== src/Examples/Sqlite.antt =====
-- Tables with one key that has a value and a lease, on a database that does not fail.
use specter.Prelude.{
  ◌^◌, ◌<◌, ◌≡◌, refl, inl, inr, true, false, not, ◌&&◌, ◌||◌, none, some, [], ◌∷◌, Bytes, bytes_eq,
  bytes_beq, ◌=?◌, Bool-cases, arith,
}
use specter.Prelude.Int.{pos}
use specter.Errors.{chord, kv_lease_conflict, kv_lease_expired}
use specter.Ring.{between}
use specter.Containers.{member}
use specter.Kv.Spec.{Transfer, update}
use specter.Kv.Memory.Keys.{has_prefix, KeyKind}
use specter.Kv.Sqlite.Schema.{Tables, to_int64, from_int64, count, children, has_row}
use specter.Kv.Sqlite.{Driver, any_flag, blob, put, delete, append, remove}
use specter.Kv.Sqlite.Lease.{acquire, renew, release}
use specter.Kv.Sqlite.Provider.{import, export, remove_keys, range_keys, list_keys_of}
use specter.Kv.Sqlite.Transactions.{Outcome}
use specter.Kv.Sqlite.Tracking.{flags_at, IsTracked}
use specter.Kv.Sqlite.View.{view, Shows}
use specter.Kv.Sqlite.Refinement.{Never, Conflict, mutations-Outcome}
use specter.Kv.Sqlite.Grants.{
  Refusal, Granted, NotHeld, acquire_blocked, renew_blocked, release_blocked, leases-Outcome,
}
use specter.Kv.Sqlite.Ranges.{Answered, listed, flag_of, listings-Answered}
use specter.Kv.Sqlite.Removal.{emptied}
use specter.Kv.Sqlite.Transfer.{live, has_nil, merged_all, ImportRefusal, import-Outcome}
use specter.Kv.Sqlite.Handover.{sent, taken, sqlite_handover}

instance abbrev driver : Driver
driver = record { hash_fn = λ k. 5; hash_word = λ k. omega arith; fails = λ s d. none }

abbrev nothing : Tables
nothing = record { simple_entries = []; prefix_entries = []; lease_entries = []; key_trackers = [] }

abbrev one_key : Tables
one_key = record {
  simple_entries = (1 ∷ [], 7 ∷ []) ∷ [];
  prefix_entries = [];
  lease_entries = (1 ∷ [], pos 5000000000) ∷ [];
  key_trackers =
      (
        1 ∷ [],
        record { hash = pos 5; flags = record { simple = true; prefix = false; lease = true } },
      )
      ∷ [];
}

nothing-IsTracked : IsTracked nothing
unfolding count children
nothing-IsTracked = record { once = tt; tracked = λ j. refl }

one_key-IsTracked : IsTracked one_key
unfolding count children to_int64
one_key-IsTracked = record {
  once = (refl, tt);
  tracked = λ j. elim (Bool-cases (bytes_beq (1 ∷ []) j)) [ inl e ↦ rw e refl | inr e ↦ rw e refl ];
}

mutations-Outcome_example :
    Outcome Never
      (Shows (
        update
          (1 ∷ [])
          (record (view one_key (1 ∷ [])) { simple = some (blob (some (9 ∷ []))) })
          (view one_key)))
      one_key
      (put (1 ∷ []) (some (9 ∷ [])) one_key)
    × Outcome Never
        (Shows (update (1 ∷ []) (record (view one_key (1 ∷ [])) { simple = none }) (view one_key)))
        one_key
        (delete (1 ∷ []) one_key)
    × Outcome
        (Conflict (1 ∷ []) (2 ∷ []) one_key)
        (Shows (
          update
            (1 ∷ [])
            (record (view one_key (1 ∷ [])) {
              has = λ x. ((2 ∷ []) =? x) || (view one_key (1 ∷ [])).has x;
            })
            (view one_key)))
        one_key
        (append (1 ∷ []) (2 ∷ []) one_key)
    × Outcome Never
        (Shows (
          update
            (1 ∷ [])
            (record (view one_key (1 ∷ [])) {
              has = λ x. not ((2 ∷ []) =? x) && (view one_key (1 ∷ [])).has x;
            })
            (view one_key)))
        one_key
        (remove (1 ∷ []) (2 ∷ []) one_key)
mutations-Outcome_example =
    mutations-Outcome (1 ∷ []) (2 ∷ []) (some (9 ∷ [])) one_key one_key-IsTracked

leases-Outcome_example :
    Outcome
      (Refusal
        (chord kv_lease_conflict)
        (acquire_blocked (pos 6000000000) (some (pos 5000000000)))
        (pos 2000000000)
        (pos 6000000000)
        0)
      (Granted
        (1 ∷ [])
        (acquire_blocked (pos 6000000000) (some (pos 5000000000)))
        (pos 2000000000)
        (pos 6000000000)
        0
        one_key)
      one_key
      (acquire (1 ∷ []) (pos 2000000000) (pos 6000000000) one_key)
    × Outcome
        (Refusal
          (chord kv_lease_expired)
          (renew_blocked (to_int64 5000000000) (pos 6000000000) (some (pos 5000000000)))
          (pos 2000000000)
          (pos 6000000000)
          5000000000)
        (Granted
          (1 ∷ [])
          (renew_blocked (to_int64 5000000000) (pos 6000000000) (some (pos 5000000000)))
          (pos 2000000000)
          (pos 6000000000)
          5000000000
          one_key)
        one_key
        (renew (1 ∷ []) (pos 2000000000) (pos 6000000000) 5000000000 one_key)
    × Outcome
        (NotHeld (release_blocked (to_int64 5000000000) (some (pos 5000000000))))
        (λ d' u.
          (release_blocked (to_int64 5000000000) (some (pos 5000000000)) ≡ false)
          × Shows
              (update (1 ∷ []) (record (view one_key (1 ∷ [])) { lease = 0 }) (view one_key))
              d'
              u)
        one_key
        (release (1 ∷ []) 5000000000 one_key)
leases-Outcome_example =
    leases-Outcome (1 ∷ []) (pos 2000000000) (pos 6000000000) 5000000000 one_key one_key-IsTracked

listings-Answered_example :
    Answered
      (λ keys. (k : Bytes) → member k keys ≡ (between 9 5 7 true && any_flag (flags_at k one_key)))
      one_key
      (range_keys 9 7 one_key)
    × Answered
        (λ xs.
          (kind : KeyKind) (k : Bytes)
          → listed kind k xs ≡ (has_prefix k (1 ∷ []) && flag_of kind (flags_at k one_key)))
        one_key
        (list_keys_of (1 ∷ []) one_key)
listings-Answered_example =
    listings-Answered 9 7 (1 ∷ []) one_key one_key-IsTracked (omega arith) (omega arith)
      (λ k. omega arith)

abbrev handed : Transfer
handed = record { simple_value = none; prefix_children = (3 ∷ []) ∷ []; lease_token = 8 }

import-Outcome_example :
    Outcome
      (ImportRefusal ((1 ∷ []) ∷ (2 ∷ []) ∷ []) (some handed ∷ none ∷ []))
      (λ d' u.
        (has_nil (some handed ∷ none ∷ []) ≡ false)
        × Shows
            (merged_all ((1 ∷ []) ∷ (2 ∷ []) ∷ []) (some handed ∷ none ∷ []) (view one_key))
            d'
            u)
      one_key
      (import ((1 ∷ []) ∷ (2 ∷ []) ∷ []) (some handed ∷ none ∷ []) one_key)
import-Outcome_example =
    import-Outcome ((1 ∷ []) ∷ (2 ∷ []) ∷ []) (some handed ∷ none ∷ []) one_key (omega arith, tt)
      one_key-IsTracked

one_key-words : (k : Bytes) → (view one_key k).lease < 2 ^ 64
unfolding view from_int64
one_key-words k = elim (Bool-cases (bytes_beq (1 ∷ []) k)) [
  | inl e ↦ rw e (omega arith)
  | inr e ↦ rw e (omega arith)
]

one_key-live : (k : Bytes) → member k ((1 ∷ []) ∷ []) ≡ true → live one_key k ≡ true
one_key-live k h = elim (Bool-cases (bytes_beq (1 ∷ []) k)) [
  | inl e ↦ rw e refl
  | inr e ↦ absurd (ground (arith, h, e))
]

sqlite_handover_example :
    Outcome Never
      (λ y values.
        (y ≡ one_key)
        × Outcome Never
            (Shows (taken ((1 ∷ []) ∷ []) (view one_key) (view nothing)))
            nothing
            (import ((1 ∷ []) ∷ []) (sent values) nothing))
      one_key
      (export ((1 ∷ []) ∷ []) one_key)
    × Outcome Never
        (Shows (emptied ((1 ∷ []) ∷ []) (view one_key)))
        one_key
        (remove_keys ((1 ∷ []) ∷ []) one_key)
sqlite_handover_example =
    sqlite_handover ((1 ∷ []) ∷ []) one_key nothing one_key-IsTracked nothing-IsTracked
      (unfold view in one_key-words) one_key-live (λ k h. inl (unfold view has_row in refl))
