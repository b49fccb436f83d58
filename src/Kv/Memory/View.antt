-- ===== src/Kv/Memory/View.antt =====
-- The abstract map that a store stands for, and how writes change it.
use mathlib.Core.Path.{fun_ext}
use specter.Prelude.{
  ◌≡◌, refl, ap, Bool, true, false, Option, none, some, inl, inr, Bytes, if◌then◌else◌, nat_eq,
  bytes_eq, Bool-cases, bytes_beq, bytes_beq_iff, ◌∙◌,
}
use specter.Kv.Spec.{Cell, Cells, empty_cell, update}
use specter.Kv.Memory.{
  Backend, KvValue, MemoryKv, new_value, new_store, write, fetch_val, lookup_val, delete_all,
}
use specter.Kv.Memory.Lookup.{
  value_of, lookup_val-write, fetch_val-value, lookup_val-fetch_val, lookup_val-delete_all,
  lookup_val-new_store,
}

module _ ⦃b : Backend⦄ where
  abbrev pub cell : KvValue → Cell
  cell v = record { simple = v.simple; lease = v.lease; has = λ c. b.sets.contains c v.children }

  abbrev pub cell_of : Option KvValue → Cell
  cell_of none = empty_cell
  cell_of (some v) = cell v

  cell_of-if :
      (t : Bool) (x y : Option KvValue)
      → cell_of (if t then x else y) ≡ (if t then cell_of x else cell_of y)
  cell_of-if true x y = refl
  cell_of-if false x y = refl

  -- What a client can see of each key.
  unfoldable pub view : MemoryKv → Cells
  view m k = cell_of (lookup_val k m)

  cell-new_value : cell new_value ≡ empty_cell
  unfolding new_value
  cell-new_value = λ i. record { simple = none; lease = 0; has = λ c. b.sets.contains-empty c i }

  cell-value_of : (o : Option KvValue) → cell (value_of o) ≡ cell_of o
  cell-value_of none = cell-new_value
  cell-value_of (some v) = refl

  -- The value that an operation starts from shows the cell of its key.
  pub cell-fetch_val : (k : Bytes) (m : MemoryKv) → cell (fetch_val k m).1 ≡ view m k
  unfolding view
  cell-fetch_val k m = rw (fetch_val-value k m) (cell-value_of (lookup_val k m))

  -- That a fetch stores a new value for a missing key cannot be seen.
  pub view-fetch_val : (k : Bytes) (m : MemoryKv) → view (fetch_val k m).0 ≡ view m
  unfolding view
  view-fetch_val k m = fun_ext λ j. rw lookup_val-fetch_val (elim (Bool-cases (bytes_beq k j)) [
    | inl e ↦ rw e (
        cell-value_of (lookup_val k m)
        ∙ ap (λ x. cell_of (lookup_val x m)) ((bytes_beq_iff k j).0 e))
    | inr e ↦ rw e
  ])

  pub view-write :
      (k : Bytes) (v : KvValue) (m : MemoryKv) → view (write k v m) ≡ update k (cell v) (view m)
  unfolding view
  view-write k v m =
      fun_ext λ j. rw lookup_val-write (cell_of-if (bytes_beq k j) (some v) (lookup_val j m))

  pub view-delete_all :
      (k : Bytes) (m : MemoryKv) → view (delete_all k m) ≡ update k empty_cell (view m)
  unfolding view
  view-delete_all k m =
      fun_ext λ j. rw lookup_val-delete_all (cell_of-if (bytes_beq k j) none (lookup_val j m))

  pub view-new_store : view new_store ≡ (λ k. empty_cell)
  unfolding view
  view-new_store = fun_ext λ j. rw lookup_val-new_store refl
