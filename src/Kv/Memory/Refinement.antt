-- ===== src/Kv/Memory/Refinement.antt =====
-- kv/aof/mutation.go: handleMutation on the store, against the abstract map.
use specter.Prelude.{
  ◌≡◌, refl, ap, ◌&&◌, not, ◌||◌, Option, none, some, inl, inr, List, [], ◌∷◌, Bytes, ◌=?◌,
  bytes_eq, arith, Bool-cases, ◌∙◌, sym,
}
use specter.Errors.{Error, chord, kv_prefix_conflict}
use specter.Containers.{member}
use specter.Kv.Spec.{
  Mutation, Transfer, Cells, update, imported, spec_import, spec_remove_keys, spec_step, with_none,
}
use specter.Kv.Memory.{
  Backend, KvValue, MemoryKv, write, fetch_val, delete_all, put, delete, prefix_append,
  prefix_remove,
}
use specter.Kv.Memory.Keys.{import, add_all, remove_keys}
use specter.Kv.Memory.View.{cell, view, cell-fetch_val, view-fetch_val, view-write, view-delete_all}

module _ ⦃b : Backend⦄ where
  abbrev pub no_error : Option MemoryKv → Option (MemoryKv × Option Error)
  no_error none = none
  no_error (some m) = some (m, none)

  -- One mutation on a store (the switch of `handleMutation`); `none` is a panic.
  unfoldable pub handle_mutation : Mutation → MemoryKv → Option (MemoryKv × Option Error)
  handle_mutation (Mutation.simple_put key value) m = some (put key value m)
  handle_mutation (Mutation.simple_delete key) m = some (delete key m)
  handle_mutation (Mutation.prefix_append key child) m = some (prefix_append key child m)
  handle_mutation (Mutation.prefix_remove key child) m = some (prefix_remove key child m)
  handle_mutation (Mutation.import keys values) m = no_error (import keys values m)
  handle_mutation (Mutation.remove_keys keys) m = some (remove_keys keys m, none)

  abbrev pub seen : Option (MemoryKv × Option Error) → Option (Cells × Option Error)
  seen none = none
  seen (some (m, e)) = some (view m, e)

  -- A write after a fetch changes the cell of the key and nothing else.
  pub view-write-fetch_val :
      (k : Bytes) (v : KvValue) (m : MemoryKv)
      → view (write k v (fetch_val k m).0) ≡ update k (cell v) (view m)
  view-write-fetch_val k v m =
      view-write k v (fetch_val k m).0 ∙ ap (update k (cell v)) (view-fetch_val k m)

  view-put :
      (k : Bytes) (x : Option Bytes) (m : MemoryKv)
      → view (put k x m).0 ≡ update k (record (view m k) { simple = x }) (view m)
  unfolding put
  view-put k x m =
      view-write-fetch_val k (record (fetch_val k m).1 { simple = x }) m
      ∙ ap (λ c. update k (record c { simple = x }) (view m)) (cell-fetch_val k m)

  view-delete :
      (k : Bytes) (m : MemoryKv)
      → view (delete k m).0 ≡ update k (record (view m k) { simple = none }) (view m)
  unfolding delete
  view-delete k m =
      view-write-fetch_val k (record (fetch_val k m).1 { simple = none }) m
      ∙ ap (λ c. update k (record c { simple = none }) (view m)) (cell-fetch_val k m)

  cell-add :
      (child : Bytes) (v : KvValue)
      → cell (record v { children = b.sets.add child v.children })
        ≡ record (cell v) { has = λ x. (child =? x) || (cell v).has x }
  cell-add child v = λ i. record {
    simple = v.simple;
    lease = v.lease;
    has = λ x. b.sets.contains-add child x v.children i;
  }

  cell-remove :
      (child : Bytes) (v : KvValue)
      → cell (record v { children = b.sets.remove child v.children })
        ≡ record (cell v) { has = λ x. not (child =? x) && (cell v).has x }
  cell-remove child v = λ i. record {
    simple = v.simple;
    lease = v.lease;
    has = λ x. b.sets.contains-remove child x v.children i;
  }

  view-prefix_remove :
      (k child : Bytes) (m : MemoryKv)
      → view (prefix_remove k child m).0
        ≡ update k (record (view m k) { has = λ x. not (child =? x) && (view m k).has x }) (view m)
  unfolding prefix_remove
  view-prefix_remove k child m =
      view-write-fetch_val k _ m
      ∙ (ap (λ c. update k c (view m)) (cell-remove child (fetch_val k m).1)
          ∙ ap (λ c. update k (record c { has = λ x. not (child =? x) && c.has x }) (view m))
              (cell-fetch_val k m))

  has-add_all :
      (cs : List Bytes) (s : b.sets.Set Bytes) (x : Bytes)
      → b.sets.contains x (add_all cs s) ≡ (member x cs || b.sets.contains x s)
  unfolding add_all
  has-add_all [] s x = refl
  has-add_all (c ∷ cs) s x =
      ground (arith, has-add_all cs (b.sets.add c s) x, b.sets.contains-add c x s)

  view-appended :
      (k child : Bytes) (m : MemoryKv)
      → view (
          write k
            (record (fetch_val k m).1 { children = b.sets.add child (fetch_val k m).1.children })
            (fetch_val k m).0)
        ≡ update k (record (view m k) { has = λ x. (child =? x) || (view m k).has x }) (view m)
  view-appended k child m =
      view-write-fetch_val k _ m
      ∙ (ap (λ c. update k c (view m)) (cell-add child (fetch_val k m).1)
          ∙ ap (λ c. update k (record c { has = λ x. (child =? x) || c.has x }) (view m))
              (cell-fetch_val k m))

  cell-imported :
      (t : Transfer) (v : KvValue)
      → cell (record {
        simple = t.simple_value;
        lease = t.lease_token;
        children = add_all t.prefix_children v.children;
      })
        ≡ imported t (cell v)
  cell-imported t v = λ i. record {
    simple = t.simple_value;
    lease = t.lease_token;
    has = λ x. has-add_all t.prefix_children v.children x i;
  }

  seen-prefix_append :
      (k child : Bytes) (m : MemoryKv)
      → seen (some (prefix_append k child m)) ≡ spec_step (Mutation.prefix_append k child) (view m)
  unfolding prefix_append
  seen-prefix_append k child m =
      elim (Bool-cases (b.sets.contains child (fetch_val k m).1.children)) [
        | inl e ↦
            rw (e, sym (ap (λ c. c.has child) (cell-fetch_val k m)) ∙ e)
              (ap (λ s. some (s, some (chord kv_prefix_conflict))) (view-fetch_val k m))
        | inr e ↦
            rw (e, sym (ap (λ c. c.has child) (cell-fetch_val k m)) ∙ e)
              (ap (λ s. some (s, none)) (view-appended k child m))
      ]

  pub seen-import :
      (keys : List Bytes) (values : List Transfer) (m : MemoryKv)
      → seen (no_error (import keys values m)) ≡ with_none (spec_import keys values (view m))
  unfolding import
  seen-import [] values m = refl
  seen-import (k ∷ keys) [] m = refl
  seen-import (k ∷ keys) (t ∷ values) m =
      seen-import keys values _
      ∙ ap (λ s. with_none (spec_import keys values s))
          (view-write-fetch_val k _ m
            ∙ (ap (λ c. update k c (view m)) (cell-imported t (fetch_val k m).1)
                ∙ ap (λ c. update k (imported t c) (view m)) (cell-fetch_val k m)))

  pub view-remove_keys :
      (keys : List Bytes) (m : MemoryKv)
      → view (remove_keys keys m) ≡ spec_remove_keys keys (view m)
  unfolding remove_keys
  view-remove_keys [] m = refl
  view-remove_keys (k ∷ keys) m =
      view-remove_keys keys (delete_all k m) ∙ ap (spec_remove_keys keys) (view-delete_all k m)

  -- Every mutation does to the store, as clients see it, what it does to the abstract map, and
  -- returns the same error or panics alike.
  pub handle_mutation-refines :
      (mut : Mutation) (m : MemoryKv) → seen (handle_mutation mut m) ≡ spec_step mut (view m)
  unfolding handle_mutation put delete prefix_remove
  handle_mutation-refines (Mutation.simple_put k x) m = ap (λ s. some (s, none)) (view-put k x m)
  handle_mutation-refines (Mutation.simple_delete k) m = ap (λ s. some (s, none)) (view-delete k m)
  handle_mutation-refines (Mutation.prefix_append k c) m = seen-prefix_append k c m
  handle_mutation-refines (Mutation.prefix_remove k c) m =
      ap (λ s. some (s, none)) (view-prefix_remove k c m)
  handle_mutation-refines (Mutation.import keys values) m = seen-import keys values m
  handle_mutation-refines (Mutation.remove_keys keys) m =
      ap (λ s. some (s, none)) (view-remove_keys keys m)
