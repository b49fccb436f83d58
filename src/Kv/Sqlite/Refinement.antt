-- ===== src/Kv/Sqlite/Refinement.antt =====
-- kv/sqlite3/{simple,prefix}.go: the mutations, against the abstract map.
use specter.Prelude.{
  ℕ, ◌<◌, ◌≡◌, refl, ap, sym, subst, ◌∙◌, true, false, not, ◌&&◌, ◌||◌, Option, none, some, inl,
  inr, List, ◌∷◌, Bytes, bytes_eq, bytes_beq_iff, ◌=?◌, ltb, Bool-cases, arith,
}
use specter.Errors.{Error, chord, kv_prefix_conflict}
use specter.Containers.{find}
use specter.Containers.Assoc.{without, find-without}
use specter.Kv.Spec.{Cells, update}
use specter.Kv.Sqlite.Schema.{Tables, upsert, find-upsert, has_row, count, remove_row}
use specter.Kv.Sqlite.PrefixRows.{
  has_row-remove_row, count-remove_row, count-remove_row_pos, has_row-cons_self, has_row-cons_other,
  count-cons_self, count-cons_other,
}
use specter.Kv.Sqlite.{
  Driver, update_key_tracker, simple_put, simple_del, prefix_append, prefix_remove, no_flags,
  simple_flag, prefix_flag, blob, put_tx, put, delete_tx, delete, append_row, append_tx, append,
  remove_tx, remove,
}
use specter.Kv.Sqlite.Bits.{
  Flags-ext, add_simple, remove_simple, add_prefix, remove_prefix, fresh_simple, fresh_prefix,
  fresh_remove,
}
use specter.Kv.Sqlite.Transactions.{Ran, Outcome, affected-Ran, with_write_tx-Outcome}
use specter.Kv.Sqlite.Tracking.{flags_at, IsTracked, is_some}
use specter.Kv.Sqlite.View.{
  view, Shows, change-Shows, simple-Changed, prefix-Changed, update_key_tracker-Shows,
}

-- No error of the store itself.
abbrev pub Never : Error → Type 0
Never e = ⊥

pub find-upsert_self :
    {V : Type 0} (k : Bytes) (v : V) (rows : List (Bytes × V)) → find k (upsert k v rows) ≡ some v
find-upsert_self k v rows = find-upsert k k v rows ∙ rw ((bytes_beq_iff k k).1 refl) refl

pub find-upsert_other :
    {V : Type 0} (k j : Bytes) (v : V) (rows : List (Bytes × V))
    → (k =? j) ≡ false
    → find j (upsert k v rows) ≡ find j rows
find-upsert_other k j v rows ne = find-upsert k j v rows ∙ rw ne refl

pub find-without_self :
    {V : Type 0} (k : Bytes) (rows : List (Bytes × V)) → find k (without k rows) ≡ none
find-without_self k rows = find-without k k rows ∙ rw ((bytes_beq_iff k k).1 refl) refl

pub find-without_other :
    {V : Type 0} (k j : Bytes) (rows : List (Bytes × V))
    → (k =? j) ≡ false
    → find j (without k rows) ≡ find j rows
find-without_other k j rows ne = find-without k j rows ∙ rw ne refl

module _ ⦃c : Driver⦄ where
  put_tx-Shows :
      (key : Bytes) (value : Option Bytes) (d : Tables)
      → IsTracked d
      → Ran Never
          (Shows (update key (record (view d key) { simple = some (blob value) }) (view d)))
          (put_tx key value d)
  unfolding put_tx
  put_tx-Shows key value d tracked =
      let there = find-upsert_self key (blob value) d.simple_entries in
      let flags : record (flags_at key d) { simple = true }
          ≡ flags_at key (record d { simple_entries = upsert key (blob value) d.simple_entries }) =
        Flags-ext _ _ (sym (ap is_some there)) refl refl in
      change-Shows Never simple_put _ key _ simple_flag no_flags d tracked
        (simple-Changed key (some (blob value)) _ d there
          (λ j ne. find-upsert_other key j (blob value) d.simple_entries ne))
        (add_simple (flags_at key d) ∙ flags)
        (λ empty. fresh_simple (flags_at key d) true empty ∙ flags)

  delete_tx-Shows :
      (key : Bytes) (d : Tables)
      → IsTracked d
      → Ran Never
          (Shows (update key (record (view d key) { simple = none }) (view d)))
          (delete_tx key d)
  unfolding delete_tx
  delete_tx-Shows key d tracked =
      let gone = find-without_self key d.simple_entries in
      let flags : record (flags_at key d) { simple = false }
          ≡ flags_at key (record d { simple_entries = without key d.simple_entries }) =
        Flags-ext _ _ (sym (ap is_some gone)) refl refl in
      change-Shows Never simple_del _ key _ no_flags simple_flag d tracked
        (simple-Changed key none _ d gone (λ j ne. find-without_other key j d.simple_entries ne))
        (remove_simple (flags_at key d) ∙ flags)
        (λ empty. fresh_simple (flags_at key d) false empty ∙ flags)

  some_left : (n m : ℕ) → (0 < n → 0 < m) → ltb 0 n ≡ true → ltb 0 m ≡ true
  some_left n m f h = ground arith

  remove_tx-Shows :
      (key child : Bytes) (d : Tables)
      → IsTracked d
      → Ran Never
          (Shows (
            update key
              (record (view d key) { has = λ x. not (child =? x) && (view d key).has x })
              (view d)))
          (remove_tx key child d)
  unfolding remove_tx view
  remove_tx-Shows key child d tracked =
      let rows = remove_row key child d.prefix_entries in
      let left : ltb 0 (count key rows) ≡ true → ltb 0 (count key d.prefix_entries) ≡ true =
        some_left _ _ (count-remove_row_pos key child key d.prefix_entries) in
      change-Shows Never prefix_remove
        (λ d. record d { prefix_entries = remove_row key child d.prefix_entries }) key _ no_flags
        prefix_flag d tracked
        (prefix-Changed key (λ x. not (child =? x) && has_row key x d.prefix_entries) _ d
          (λ x.
            has_row-remove_row key child key x d.prefix_entries
            ∙ rw ((bytes_beq_iff key key).1 refl) refl)
          (λ j x ne. has_row-remove_row key child j x d.prefix_entries ∙ rw ne refl)
          (λ j ne. count-remove_row key child j d.prefix_entries ne))
        (remove_prefix (flags_at key d) (count key rows) left)
        (fresh_remove (flags_at key d) (count key rows) left)

  abbrev pub Conflict : Bytes → Bytes → Tables → Error → Type 0
  Conflict key child d e = (e ≡ chord kv_prefix_conflict) × ((view d key).has child ≡ true)

  append_new-Shows :
      (key child : Bytes) (d d' : Tables)
      → IsTracked d
      → d' ≡ record d { prefix_entries = (key, child) ∷ d.prefix_entries }
      → Ran
          (Conflict key child d)
          (Shows (
            update key
              (record (view d key) { has = λ x. (child =? x) || (view d key).has x })
              (view d)))
          (update_key_tracker key prefix_flag no_flags d')
  unfolding view
  append_new-Shows key child d d' tracked e =
      let added : Tables = record d { prefix_entries = (key, child) ∷ d.prefix_entries } in
      let goal : Cells =
        update key (record (view d key) { has = λ x. (child =? x) || (view d key).has x })
          (view d) in
      let flags : record (flags_at key d) { prefix = true } ≡ flags_at key added =
        Flags-ext _ _ refl (sym (count-cons_self key child d.prefix_entries)) refl in
      subst
        (λ y.
          Ran (Conflict key child d) (Shows goal) (update_key_tracker key prefix_flag no_flags y))
        (sym e)
        (update_key_tracker-Shows (Conflict key child d) key
          (record (view d key) { has = λ x. (child =? x) || (view d key).has x }) prefix_flag
          no_flags d added tracked
          (prefix-Changed key (λ x. (child =? x) || has_row key x d.prefix_entries)
            ((key, child) ∷ d.prefix_entries) d
            (λ x. has_row-cons_self key child x d.prefix_entries)
            (λ j x ne. has_row-cons_other key child j x d.prefix_entries ne)
            (λ j ne. count-cons_other key child j d.prefix_entries ne))
          (add_prefix (flags_at key d) ∙ flags)
          (λ empty. fresh_prefix (flags_at key d) true empty ∙ flags))

  append_tx-Shows :
      (key child : Bytes) (d : Tables)
      → IsTracked d
      → Ran
          (Conflict key child d)
          (Shows (
            update key
              (record (view d key) { has = λ x. (child =? x) || (view d key).has x })
              (view d)))
          (append_tx key child d)
  unfolding append_tx
  append_tx-Shows key child d tracked =
      affected-Ran (Conflict key child d) _ prefix_append (append_row key child) d _ _
        (elim (Bool-cases (has_row key child d.prefix_entries)) [
          | inl has ↦ inl (unfold append_row in rw has refl, (refl, unfold view in has))
          | inr new ↦ inr (
            unfold append_row in rw new refl,
            append_new-Shows key child d _ tracked (unfold append_row in rw new refl),
          )
        ])

  -- Put
  put-Outcome :
      (key : Bytes) (value : Option Bytes) (d : Tables)
      → IsTracked d
      → Outcome Never
          (Shows (update key (record (view d key) { simple = some (blob value) }) (view d)))
          d
          (put key value d)
  unfolding put
  put-Outcome key value d tracked =
      with_write_tx-Outcome Never _ (put_tx key value) d (put_tx-Shows key value d tracked)

  delete-Outcome :
      (key : Bytes) (d : Tables)
      → IsTracked d
      → Outcome Never
          (Shows (update key (record (view d key) { simple = none }) (view d)))
          d
          (delete key d)
  unfolding delete
  delete-Outcome key d tracked =
      with_write_tx-Outcome Never _ (delete_tx key) d (delete_tx-Shows key d tracked)

  remove-Outcome :
      (key child : Bytes) (d : Tables)
      → IsTracked d
      → Outcome Never
          (Shows (
            update key
              (record (view d key) { has = λ x. not (child =? x) && (view d key).has x })
              (view d)))
          d
          (remove key child d)
  unfolding remove
  remove-Outcome key child d tracked =
      with_write_tx-Outcome Never _ (remove_tx key child) d (remove_tx-Shows key child d tracked)

  append-Outcome :
      (key child : Bytes) (d : Tables)
      → IsTracked d
      → Outcome
          (Conflict key child d)
          (Shows (
            update key
              (record (view d key) { has = λ x. (child =? x) || (view d key).has x })
              (view d)))
          d
          (append key child d)
  unfolding append
  append-Outcome key child d tracked =
      with_write_tx-Outcome (Conflict key child d) _ (append_tx key child) d
        (append_tx-Shows key child d tracked)

  -- Where every key has the tracker that its rows call for, Put, Delete, PrefixAppend and
  -- PrefixRemove each end in one of these outcomes: the transaction commits, the trackers are
  -- again what the rows call for and clients see the cell of that key changed as the operation
  -- says and no other; or the tables are unchanged and the error is one that the database gave
  -- or, for PrefixAppend alone and only if the child is already there, the prefix conflict.
  pub mutations-Outcome :
      (key child : Bytes) (value : Option Bytes) (d : Tables)
      → IsTracked d
      → Outcome Never
          (Shows (update key (record (view d key) { simple = some (blob value) }) (view d)))
          d
          (put key value d)
        × Outcome Never
            (Shows (update key (record (view d key) { simple = none }) (view d)))
            d
            (delete key d)
        × Outcome
            (Conflict key child d)
            (Shows (
              update key
                (record (view d key) { has = λ x. (child =? x) || (view d key).has x })
                (view d)))
            d
            (append key child d)
        × Outcome Never
            (Shows (
              update key
                (record (view d key) { has = λ x. not (child =? x) && (view d key).has x })
                (view d)))
            d
            (remove key child d)
  mutations-Outcome key child value d tracked = (
    put-Outcome key value d tracked,
    delete-Outcome key d tracked,
    append-Outcome key child d tracked,
    remove-Outcome key child d tracked,
  )
