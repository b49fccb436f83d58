-- ===== src/Kv/Sqlite/Transfer.antt =====
-- kv/sqlite3/provider.go: Import of many keys, Export, and the two together when a key range changes
-- hands.
use specter.Prelude.{
  ℕ, zero, suc, ◌^◌, ◌<◌, ◌≡◌, refl, ap, sym, subst, ◌∙◌, ◌⊎◌, inl, inr, Bool, true, false, ◌||◌,
  not, Option, none, some, List, [], ◌∷◌, map, Bytes, bytes_eq, ◌==◌, ==_iff, nat_eq, length,
  Bool-cases, Option-cases, arith,
}
use specter.Prelude.Int.{ℤ}
use specter.Errors.{Error, Result, plain}
use specter.Containers.{find}
use specter.Kv.Spec.{Cell, Cells, Transfer, empty_cell, update}
use specter.Kv.Sqlite.Schema.{Tables, children}
use specter.Kv.Sqlite.PrefixRows.{member-children}
use specter.Kv.Sqlite.{Driver, simple_get, prefix_list, lease_get, Tx, then_}
use specter.Kv.Sqlite.Provider.{
  imported_simple_value, import_one, import_tx, import, token_or_0, export_one, export_tx, export,
}
use specter.Kv.Sqlite.Transactions.{
  Ran, ran, refused, Outcome, denied, exec-Ran, then-Ran, with_write_tx-Outcome,
}
use specter.Kv.Sqlite.Tracking.{is_some, IsTracked}
use specter.Kv.Sqlite.View.{view, token_of, Cell-ext, Shows}
use specter.Kv.Sqlite.Refinement.{Never}
use specter.Kv.Sqlite.Imports.{or_else, new_lease, merged}
use specter.Kv.Sqlite.ImportOne.{import_one-Shows}

-- Each token is a 64-bit word.
abbrev pub TokenWords : List (Option Transfer) → Type 0
TokenWords [] = Unit
TokenWords (none ∷ values) = TokenWords values
TokenWords (some t ∷ values) = (t.lease_token < 2 ^ 64) × TokenWords values

abbrev pub has_nil : List (Option Transfer) → Bool
has_nil [] = false
has_nil (none ∷ values) = true
has_nil (some t ∷ values) = has_nil values

-- The cells after the values were merged in, one key after the other.
abbrev pub merged_all : List Bytes → List (Option Transfer) → Cells → Cells
merged_all [] values s = s
merged_all (k ∷ keys) [] s = s
merged_all (k ∷ keys) (none ∷ values) s = s
merged_all (k ∷ keys) (some t ∷ values) s = merged_all keys values (update k (merged t (s k)) s)

-- The two errors of Import itself.
pub data ImportRefusal (keys : List Bytes) (values : List (Option Transfer)) : Error → Type 0 where
  mismatch :
      (length keys == length values) ≡ false
      → ImportRefusal keys values (plain "keys and values length mismatch")
  nil_value : has_nil values ≡ true → ImportRefusal keys values (plain "values[] is nil")

module _ ⦃c : Driver⦄ where
  import_tx-Shows :
      (May : Error → Type 0) (keys : List Bytes) (values : List (Option Transfer)) (d : Tables)
      → length keys ≡ length values
      → TokenWords values
      → (has_nil values ≡ true → May (plain "values[] is nil"))
      → IsTracked d
      → Ran May
          (λ d' u. (has_nil values ≡ false) × Shows (merged_all keys values (view d)) d' u)
          (import_tx keys values d)
  unfolding import_tx then_
  import_tx-Shows May [] [] d e w may tracked = ran (refl, (tracked, refl))
  import_tx-Shows May [] (v ∷ values) d e w may tracked = absurd (omega (arith, e))
  import_tx-Shows May (k ∷ keys) [] d e w may tracked = absurd (omega (arith, e))
  import_tx-Shows May (k ∷ keys) (none ∷ values) d e w may tracked =
      unfold import_one in refused (may refl)
  import_tx-Shows May (k ∷ keys) (some t ∷ values) d e w may tracked =
      let s = update k (merged t (view d k)) (view d) in
      then-Ran May (Shows s) _ _ _ (import_one-Shows May k t d w.0 tracked) (λ d' u g.
        subst
          (λ z.
            Ran May (λ d' u. (has_nil values ≡ false) × Shows (merged_all keys values z) d' u)
              (import_tx keys values d'))
          g.1 (import_tx-Shows May keys values d' (omega (arith, e)) w.1 may g.0))

  -- Where the trackers are right and the tokens have 64 bits, Import either finds no nil value,
  -- merges each value into the cell of its key, one after the other, and leaves the trackers
  -- right; or leaves the tables unchanged, with a failure of the database, with the error of a
  -- length mismatch if the lengths differ, or with the error of a nil value if there is one.
  pub import-Outcome :
      (keys : List Bytes) (values : List (Option Transfer)) (d : Tables)
      → TokenWords values
      → IsTracked d
      → Outcome
          (ImportRefusal keys values)
          (λ d' u. (has_nil values ≡ false) × Shows (merged_all keys values (view d)) d' u)
          d
          (import keys values d)
  unfolding import
  import-Outcome keys values d w tracked = elim (Bool-cases (length keys == length values)) [
    | inl e ↦ rw e (
        with_write_tx-Outcome _ _ (import_tx keys values) d
          (import_tx-Shows _ keys values d ((==_iff _ _).0 e) w (λ n. nil_value n) tracked))
    | inr e ↦ rw e (denied (mismatch e))
  ]

  -- What Export reads of a key.
  abbrev pub exported : Tables → Bytes → Transfer
  exported d k = record {
    simple_value = find k d.simple_entries;
    prefix_children = children k d.prefix_entries;
    lease_token = token_or_0 (find k d.lease_entries);
  }

  query-then :
      {A B : Type 0} (Goal : Tables → B → Type 0) (r : Result (Tables × A)) (d : Tables) (a : A)
      (f : A → Tx B)
      → Ran Never (λ y x. (y ≡ d) × (x ≡ a)) r
      → Ran Never Goal (f a d)
      → Ran Never Goal (then_ r f)
  query-then Goal r d a f g k =
      then-Ran Never (λ y x. (y ≡ d) × (x ≡ a)) Goal r f g
        (λ y x e.
          subst (λ w. Ran Never Goal (f w y)) (sym e.1)
            (subst (λ w. Ran Never Goal (f a w)) (sym e.0) k))

  export_one-Ran :
      (k : Bytes) (d : Tables) → Ran Never (λ y x. (y ≡ d) × (x ≡ exported d k)) (export_one k d)
  unfolding export_one
  export_one-Ran k d =
      query-then _ _ d (find k d.simple_entries) _ (exec-Ran Never _ simple_get _ d (refl, refl)) (
        query-then _ _ d (children k d.prefix_entries) _
          (exec-Ran Never _ prefix_list _ d (refl, refl))
          (query-then _ _ d (find k d.lease_entries) _ (exec-Ran Never _ lease_get _ d (refl, refl))
            (ran (refl, refl))))

  export_tx-Ran :
      (keys : List Bytes) (d : Tables)
      → Ran Never (λ y xs. (y ≡ d) × (xs ≡ map (exported d) keys)) (export_tx keys d)
  unfolding export_tx
  export_tx-Ran [] d = ran (refl, refl)
  export_tx-Ran (k ∷ keys) d =
      query-then _ _ d (exported d k) _ (export_one-Ran k d)
        (query-then _ _ d (map (exported d) keys) _ (export_tx-Ran keys d) (ran (refl, refl)))

  -- Export
  pub export-Outcome :
      (keys : List Bytes) (d : Tables)
      → Outcome Never (λ y xs. (y ≡ d) × (xs ≡ map (exported d) keys)) d (export keys d)
  unfolding export
  export-Outcome keys d = with_write_tx-Outcome Never _ (export_tx keys) d (export_tx-Ran keys d)

  -- A key has a value, a child or a lease with a token.
  abbrev pub live : Tables → Bytes → Bool
  live d k =
      is_some (find k d.simple_entries)
      || (not (length (children k d.prefix_entries) == 0)
          || not (token_of (find k d.lease_entries) == 0))

  pub token_or_0_lem : (o : Option ℤ) → token_or_0 o ≡ token_of o
  unfolding token_or_0
  token_or_0_lem none = refl
  token_or_0_lem (some t) = refl

  -- What Import takes the simple value of an exported key to be is what it was.
  imported_simple-exported :
      (d : Tables) (k : Bytes)
      → live d k ≡ true
      → imported_simple_value (exported d k) ≡ find k d.simple_entries
  unfolding imported_simple_value
  imported_simple-exported d k h = elim (Option-cases (find k d.simple_entries)) [
    | inl e ↦ rw (e, token_or_0_lem (find k d.lease_entries)) (ground (arith, h, e))
    | inr (v, e) ↦ rw e refl
  ]

  or_else_self : (o : Option Bytes) → or_else o o ≡ o
  or_else_self none = refl
  or_else_self (some v) = refl

  or_else-none : (o : Option Bytes) → or_else o none ≡ o
  or_else-none none = refl
  or_else-none (some v) = refl

  new_lease_self : (n : ℕ) → new_lease n n ≡ n
  new_lease_self zero = refl
  new_lease_self (suc n) = refl

  new_lease_zero : (n : ℕ) → new_lease n 0 ≡ n
  new_lease_zero zero = refl
  new_lease_zero (suc n) = refl

  -- Over no cell, and over the same one, the exported value gives the cell.
  pub merged-exported :
      (d : Tables) (k : Bytes) (x : Cell)
      → live d k ≡ true
      → (x ≡ empty_cell) ⊎ (x ≡ view d k)
      → merged (exported d k) x ≡ view d k
  unfolding view
  merged-exported d k x h (inl e) =
      ap (merged (exported d k)) e
      ∙ Cell-ext _ _ (or_else-none _ ∙ imported_simple-exported d k h)
          (new_lease_zero _ ∙ token_or_0_lem (find k d.lease_entries))
          (λ z. rw (member-children k z d.prefix_entries) (ground arith))
  merged-exported d k x h (inr e) =
      ap (merged (exported d k)) e
      ∙ Cell-ext _ _ (rw (imported_simple-exported d k h) (or_else_self _))
          (rw (token_or_0_lem (find k d.lease_entries)) (new_lease_self _))
          (λ z. rw (member-children k z d.prefix_entries) (ground arith))
