-- ===== src/Kv/Memory/Handover.antt =====
-- Export at one node, Import at another, RemoveKeys at the first, as transferKeysUpward and
-- transferKeysDownward of chord/local_chord.go call them on kv/memory/kv.go.
use specter.Prelude.{
  ◌≡◌, refl, ap, ◌∙◌, ◌⊎◌, true, ◌||◌, Option, none, some, inl, inr, List, [], ◌∷◌, Bytes,
  if◌then◌else◌, bytes_eq, arith, Bool-cases, bytes_beq, bytes_beq_iff,
}
use specter.Errors.{Error}
use specter.Containers.{member}
use specter.Kv.Spec.{
  Cell, Cells, empty_cell, update, imported, spec_import, spec_remove_keys, with_none,
}
use specter.Kv.Memory.{Backend, MemoryKv}
use specter.Kv.Memory.Keys.{import, export, export_one, remove_keys}
use specter.Kv.Memory.View.{view}
use specter.Kv.Memory.Reads.{member-export_one, simple_value-export_one, lease_token-export_one}
use specter.Kv.Memory.Refinement.{no_error, seen, seen-import, view-remove_keys}

-- Where the second map has either nothing under a key or already what the first has.
abbrev pub Ready : Cells → Cells → List Bytes → Type 0
Ready s t keys = (k : Bytes) → member k keys ≡ true → (t k ≡ empty_cell) ⊎ (t k ≡ s k)

pub spec_remove_keys_lem :
    (keys : List Bytes) (s : Cells) (j : Bytes)
    → spec_remove_keys keys s j ≡ (if member j keys then empty_cell else s j)
spec_remove_keys_lem [] s j = refl
spec_remove_keys_lem (k ∷ keys) s j =
    spec_remove_keys_lem keys (update k empty_cell s) j ∙ ground arith

pub Ready-update :
    (k : Bytes) (keys : List Bytes) (s t : Cells)
    → Ready s t (k ∷ keys)
    → Ready s (update k (s k) t) keys
Ready-update k keys s t h x e = elim (Bool-cases (bytes_beq k x)) [
  | inl same ↦ inr (rw same (ap s ((bytes_beq_iff k x).0 same)))
  | inr other ↦ rw other (h x (rw (other, e) refl))
]

abbrev shown : Cells → Option (Cells × Option Error) → Cells
shown u none = u
shown u (some (s, e)) = s

module _ ⦃b : Backend⦄ where
  -- To import what was exported gives the cell, over an empty cell and over the same cell.
  imported-export_one :
      (k : Bytes) (m : MemoryKv) (c : Cell)
      → (c ≡ empty_cell) ⊎ (c ≡ view m k)
      → imported (export_one k m) c ≡ view m k
  imported-export_one k m c h = λ i. record {
    simple = simple_value-export_one k m i;
    lease = lease_token-export_one k m i;
    has = λ x. merged x i;
  }
    where
      merged :
          (x : Bytes) → (member x (export_one k m).prefix_children || c.has x) ≡ (view m k).has x
      merged x = elim h [
        | inl e ↦ rw e (ground (arith, member-export_one k x m))
        | inr e ↦ rw e (ground (arith, member-export_one k x m))
      ]

  spec_import-export :
      (keys : List Bytes) (m : MemoryKv) (t : Cells)
      → Ready (view m) t keys
      → (u : Cells) × (spec_import keys (export keys m) t ≡ some u)
        × ((j : Bytes) → u j ≡ (if member j keys then view m j else t j))
  unfolding export
  spec_import-export [] m t h = (t, refl, λ j. refl)
  spec_import-export (k ∷ keys) m t h =
      let rest =
        spec_import-export keys m (update k (view m k) t) (Ready-update k keys (view m) t h) in
      rw (imported-export_one k m (t k) (h k (ground (arith, bytes_beq_iff k k)))) (
        rest.0,
        rest.1,
        λ j. rest.2 j ∙ ground (arith, ap (view m) {x = k} {y = j}, bytes_beq_iff k j),
      )

  imported_view :
      (o : Option MemoryKv) (u : Cells)
      → seen (no_error o) ≡ some (u, none)
      → (m : MemoryKv) × (o ≡ some m) × (view m ≡ u)
  imported_view none u e = cc
  imported_view (some m) u e = (m, refl, ap (shown u) e)

  -- A key range changes hands without loss: where the receiver has nothing under the keys, or
  -- already the same, Import of what Export gave succeeds, afterwards the receiver shows the
  -- giver's cell for each of the keys and its own for each other key, and after RemoveKeys the
  -- giver shows nothing for the keys and its own cell for each other key.
  pub handover :
      (keys : List Bytes) (giver receiver : MemoryKv)
      → Ready (view giver) (view receiver) keys
      → (receiver' : MemoryKv) × (import keys (export keys giver) receiver ≡ some receiver')
        × ((j : Bytes)
            → view receiver' j ≡ (if member j keys then view giver j else view receiver j))
        × ((j : Bytes)
            → view (remove_keys keys giver) j
              ≡ (if member j keys then empty_cell else view giver j))
  handover keys m n h =
      let (u, imports, shows) = spec_import-export keys m (view n) h in
      let (n', done, same) =
        imported_view (import keys (export keys m) n) u
          (seen-import keys (export keys m) n ∙ ap with_none imports) in
      (
        n',
        done,
        λ j. ap (λ s. s j) same ∙ shows j,
        λ j. ap (λ s. s j) (view-remove_keys keys m) ∙ spec_remove_keys_lem keys (view m) j,
      )
