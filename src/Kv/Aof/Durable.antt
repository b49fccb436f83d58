-- ===== src/Kv/Aof/Durable.antt =====
-- kv/aof: the part of the abstract map that the log keeps, and how mutations act on it. Leases are
-- volatile, and an empty simple value is the same as none.
use mathlib.Core.Path.{fun_ext}
use specter.Prelude.{
  ◌≡◌, refl, ap, sym, ◌∙◌, Bool, true, false, not, ◌&&◌, ◌||◌, Option, none, some, inl, inr, List,
  [], ◌∷◌, Bytes, bytes_eq, bytes_beq, ◌=?◌, if◌then◌else◌, Bool-cases,
}
use specter.Errors.{Error, chord, kv_prefix_conflict}
use specter.Containers.{member}
use specter.Kv.Spec.{
  Mutation, Transfer, Cell, Cells, empty_cell, update, imported, spec_import, spec_remove_keys,
  spec_step, with_none,
}
use specter.Kv.Aof.{stored, is_conflict, is_append}

abbrev pub squash : Option Bytes → Option Bytes
squash none = none
squash (some []) = none
squash (some (x ∷ xs)) = some (x ∷ xs)

abbrev pub durable_cell : Cell → Cell
durable_cell c = record { simple = squash c.simple; lease = 0; has = c.has }

abbrev pub durable : Cells → Cells
durable s k = durable_cell (s k)

abbrev pub durable_out : Option (Cells × Option Error) → Option (Cells × Option Error)
durable_out none = none
durable_out (some (s, e)) = some (durable s, e)

durable-update :
    (k : Bytes) (x y : Cell) (s t : Cells)
    → durable s ≡ durable t
    → durable_cell x ≡ durable_cell y
    → durable (update k x s) ≡ durable (update k y t)
durable-update k x y s t e c = fun_ext λ j. elim (Bool-cases (bytes_beq k j)) [
  | inl same ↦ rw same c
  | inr other ↦ rw other (ap (λ f. f j) e)
]

same_has : (k : Bytes) (s t : Cells) → durable s ≡ durable t → (s k).has ≡ (t k).has
same_has k s t e = ap (λ f. (f k).has) e

same_simple :
    (k : Bytes) (s t : Cells) → durable s ≡ durable t → squash (s k).simple ≡ squash (t k).simple
same_simple k s t e = ap (λ f. (f k).simple) e

durable-imported :
    (v : Transfer) (k : Bytes) (s t : Cells)
    → durable s ≡ durable t
    → durable_cell (imported v (s k)) ≡ durable_cell (imported v (t k))
durable-imported v k s t e =
    ap
      (λ h. record {
        simple = squash v.simple_value;
        lease = 0;
        has = λ x. member x v.prefix_children || h x;
      })
      (same_has k s t e)

durable-spec_import :
    (keys : List Bytes) (values : List Transfer) (s t : Cells)
    → durable s ≡ durable t
    → durable_out (with_none (spec_import keys values s))
      ≡ durable_out (with_none (spec_import keys values t))
durable-spec_import [] values s t e = ap (λ u. some (u, none)) e
durable-spec_import (k ∷ keys) [] s t e = refl
durable-spec_import (k ∷ keys) (v ∷ values) s t e =
    durable-spec_import keys values _ _ (durable-update k _ _ s t e (durable-imported v k s t e))

durable-spec_remove_keys :
    (keys : List Bytes) (s t : Cells)
    → durable s ≡ durable t
    → durable (spec_remove_keys keys s) ≡ durable (spec_remove_keys keys t)
durable-spec_remove_keys [] s t e = e
durable-spec_remove_keys (k ∷ keys) s t e =
    durable-spec_remove_keys keys _ _ (durable-update k empty_cell empty_cell s t e refl)

put_durable :
    (k : Bytes) (x y : Option Bytes) (s t : Cells)
    → durable s ≡ durable t
    → squash x ≡ squash y
    → durable_out (some (update k (record (s k) { simple = x }) s, none))
      ≡ durable_out (some (update k (record (t k) { simple = y }) t, none))
put_durable k x y s t e q =
    ap (λ u. some (u, none))
      (durable-update k _ _ s t e
        (λ i. record { simple = q i; lease = 0; has = same_has k s t e i }))

-- On maps that agree in what the log keeps, a mutation and what is stored of it do the same to
-- that, with the same error.
pub stored_step :
    (mut : Mutation) (s t : Cells)
    → durable s ≡ durable t
    → durable_out (spec_step mut s) ≡ durable_out (spec_step (stored mut) t)
unfolding stored
stored_step (Mutation.simple_put k none) s t e = put_durable k none none s t e refl
stored_step (Mutation.simple_put k (some [])) s t e = put_durable k (some []) none s t e refl
stored_step (Mutation.simple_put k (some (x ∷ xs))) s t e =
    put_durable k (some (x ∷ xs)) (some (x ∷ xs)) s t e refl
stored_step (Mutation.simple_delete k) s t e = put_durable k none none s t e refl
stored_step (Mutation.prefix_append k c) s t e = elim (Bool-cases ((t k).has c)) [
  | inl has ↦
      rw (has, ap (λ h. h c) (same_has k s t e) ∙ has)
        (ap (λ u. some (u, some (chord kv_prefix_conflict))) e)
  | inr new ↦
      rw (new, ap (λ h. h c) (same_has k s t e) ∙ new)
        (ap (λ u. some (u, none))
          (durable-update k _ _ s t e (λ i. record {
            simple = same_simple k s t e i;
            lease = 0;
            has = λ x. (c =? x) || same_has k s t e i x;
          })))
]
stored_step (Mutation.prefix_remove k c) s t e =
    ap (λ u. some (u, none))
      (durable-update k _ _ s t e (λ i. record {
        simple = same_simple k s t e i;
        lease = 0;
        has = λ x. not (c =? x) && same_has k s t e i x;
      }))
stored_step (Mutation.import keys values) s t e = durable-spec_import keys values s t e
stored_step (Mutation.remove_keys keys) s t e =
    ap (λ u. some (u, none)) (durable-spec_remove_keys keys s t e)

no_import_error : (o : Option Cells) (s : Cells) (e : Error) → with_none o ≡ some (s, some e) → ⊥
no_import_error none s e h = cc
no_import_error (some t) s e h = cc

cells_of : Cells → Option (Cells × Option Error) → Cells
cells_of d none = d
cells_of d (some (s, e)) = s

conflicting : Option (Cells × Option Error) → Bool
unfolding is_conflict
conflicting (some (s, some e)) = is_conflict e
conflicting _ = false

append_error :
    (b : Bool) (s u t : Cells) (e : Error)
    → if◌then◌else◌ {A = Option (Cells × Option Error)} b
        (some (s, some (chord kv_prefix_conflict)))
        (some (u, none))
      ≡ some (t, some e)
    → (is_conflict e ≡ true) × (t ≡ s)
unfolding cells_of conflicting is_conflict
append_error true s u t e h = (sym (ap conflicting h), sym (ap (cells_of s) h))
append_error false s u t e h = absurd cc

-- Only a rejected append gives an error, and it changes nothing.
pub step_error :
    (mut : Mutation) (s t : Cells) (e : Error)
    → spec_step mut s ≡ some (t, some e)
    → (is_append mut && is_conflict e ≡ true) × (t ≡ s)
unfolding is_append is_conflict
step_error (Mutation.simple_put k x) s t e h = absurd cc
step_error (Mutation.simple_delete k) s t e h = absurd cc
step_error (Mutation.prefix_append k c) s t e h = append_error ((s k).has c) s _ t e h
step_error (Mutation.prefix_remove k c) s t e h = absurd cc
step_error (Mutation.import keys values) s t e h =
    absurd (no_import_error (spec_import keys values s) t e h)
step_error (Mutation.remove_keys keys) s t e h = absurd cc
