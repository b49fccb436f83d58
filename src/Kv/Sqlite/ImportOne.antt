-- ===== src/Kv/Sqlite/ImportOne.antt =====
-- kv/sqlite3/provider.go: Import of one key, its parts together.
use specter.Prelude.{
  ◌^◌, ◌<◌, ◌≡◌, refl, sym, subst, ◌∙◌, false, ◌||◌, not, some, Bytes, bytes_eq, ltb, ◌==◌, length,
  arith,
}
use specter.Errors.{Error, Result}
use specter.Containers.{member}
use specter.Kv.Spec.{Transfer, update}
use specter.Kv.Sqlite.Schema.{Tables, Flags}
use specter.Kv.Sqlite.{Driver, Tx, then_, any_flag, new_flags, no_flags}
use specter.Kv.Sqlite.Provider.{imported_simple_value, import_flags, import_one}
use specter.Kv.Sqlite.Bits.{Flags-ext}
use specter.Kv.Sqlite.Transactions.{Ran, then-Ran}
use specter.Kv.Sqlite.Tracking.{flags_at, IsTracked}
use specter.Kv.Sqlite.View.{view, Cell-ext, Shows, update_key_tracker-Shows}
use specter.Kv.Sqlite.Imports.{
  merged, new_lease, simple_row, child_rows, lease_row, import_simple-Ran, import_children-Ran,
  import_lease-Ran, Part, Part-eq, Part-trans, simple_row-Part, child_rows-Part, lease_row-Part,
}

module _ ⦃c : Driver⦄ where
  imported_rows : Bytes → Transfer → Tables → Tables
  imported_rows key t d =
      lease_row key t.lease_token
        (child_rows key t.prefix_children (simple_row key (imported_simple_value t) d))

  -- The three parts together.
  imported_rows-Part :
      (key : Bytes) (t : Transfer) (d : Tables)
      → t.lease_token < 2 ^ 64
      → Part key
          (merged t (view d key))
          (new_flags (flags_at key d) (import_flags t) no_flags)
          d
          (imported_rows key t d)
  unfolding imported_rows new_flags import_flags
  imported_rows-Part key t d h =
      let d1 = simple_row key (imported_simple_value t) d in
      let d2 = child_rows key t.prefix_children d1 in
      Part-eq key _ _ _ _ d _ (Cell-ext _ _ refl refl (λ z. refl))
        (Flags-ext _ _ (ground arith) (ground arith) (ground arith))
        (Part-trans key _ (λ c. record c { lease = new_lease t.lease_token c.lease }) _
          (λ f. record f { lease = f.lease || not (t.lease_token == 0) }) d d2 _
          (Part-trans key _ (λ c. record c { has = λ z. member z t.prefix_children || c.has z }) _
            (λ f. record f { prefix = f.prefix || ltb 0 (length t.prefix_children) }) d d1 d2
            (simple_row-Part key (imported_simple_value t) d)
            (child_rows-Part key t.prefix_children d1))
          (lease_row-Part key t.lease_token d2 h))

  fresh_flags : (f add : Flags) → any_flag f ≡ false → add ≡ new_flags f add no_flags
  unfolding new_flags
  fresh_flags f add e = Flags-ext _ _ (ground arith) (ground arith) (ground arith)

  run-then :
      (May : Error → Type 0) {A : Type 0} (Goal : Tables → A → Type 0)
      (r : Result (Tables × Unit {0})) (z : Tables) (rest : Tx A)
      → Ran May (λ y u. y ≡ z) r
      → Ran May Goal (rest z)
      → Ran May Goal (then_ r (λ _. rest))
  run-then May Goal r z rest g k =
      then-Ran May (λ y u. y ≡ z) Goal r _ g (λ y u e. subst (λ w. Ran May Goal (rest w)) (sym e) k)

  pub import_one-Shows :
      (May : Error → Type 0) (key : Bytes) (t : Transfer) (d : Tables)
      → t.lease_token < 2 ^ 64
      → IsTracked d
      → Ran May (Shows (update key (merged t (view d key)) (view d))) (import_one key (some t) d)
  unfolding import_one imported_rows
  import_one-Shows May key t d h tracked =
      let p = imported_rows-Part key t d h in
      run-then May _ _ _ _ (import_simple-Ran May key (imported_simple_value t) d) (
        run-then May _ _ _ _ (import_children-Ran May key t.prefix_children _) (
          run-then May _ _ _ _ (import_lease-Ran May key t.lease_token _) (
            update_key_tracker-Shows May key (merged t (view d key)) (import_flags t) no_flags d _
              tracked p.changed (sym p.flagged)
              (λ e. fresh_flags (flags_at key d) (import_flags t) e ∙ sym p.flagged))))
