-- ===== src/Kv/Sqlite/Leases.antt =====
-- kv/sqlite3/lease.go: the outcomes of the lease operations.
use specter.Prelude.{
  ℕ, ◌^◌, ◌<◌, ◌≡◌, refl, ap, sym, subst, ◌∙◌, Bool, true, false, none, some, inl, inr, List, Bytes,
  bytes_eq, ◌=?◌, if◌then◌else◌,
}
use specter.Prelude.Int.{ℤ}
use specter.Errors.{Error, Result}
use specter.Containers.{find}
use specter.Containers.Assoc.{without}
use specter.Kv.Spec.{update}
use specter.Kv.Sqlite.Schema.{Tables, to_int64, from_int64, from_int64-to_int64}
use specter.Kv.Sqlite.{
  Driver, Statement, then_, exec, affected, ◌>>=◌, no_flags, lease_flag, update_key_tracker, pure,
}
use specter.Kv.Sqlite.Bits.{Flags-ext, add_lease, remove_lease, fresh_lease}
use specter.Kv.Sqlite.Transactions.{Ran, ran, then-Ran, affected-Ran}
use specter.Kv.Sqlite.Tracking.{flags_at, is_some, IsTracked}
use specter.Kv.Sqlite.View.{Ran-map, view, Shows, lease-Changed, update_key_tracker-Shows}
use specter.Kv.Sqlite.Refinement.{find-without_self, find-without_other}

module _ ⦃c : Driver⦄ where
  -- The lease of a key is set, or taken away, and the tracker follows.
  lease_set-Shows :
      (May : Error → Type 0) (key : Bytes) (t : ℤ) (rows : List (Bytes × ℤ)) (d : Tables)
      → IsTracked d
      → find key rows ≡ some t
      → ((j : Bytes) → (key =? j) ≡ false → find j rows ≡ find j d.lease_entries)
      → Ran May
          (Shows (update key (record (view d key) { lease = from_int64 t }) (view d)))
          (update_key_tracker key lease_flag no_flags (record d { lease_entries = rows }))
  lease_set-Shows May key t rows d tracked there others =
      let flags : record (flags_at key d) { lease = true }
          ≡ flags_at key (record d { lease_entries = rows }) =
        Flags-ext _ _ refl refl (sym (ap is_some there)) in
      update_key_tracker-Shows May key (record (view d key) { lease = from_int64 t }) lease_flag
        no_flags d _ tracked (lease-Changed key (some t) rows d there others)
        (add_lease (flags_at key d) ∙ flags)
        (λ empty. fresh_lease (flags_at key d) true empty ∙ flags)

  pub lease_gone-Shows :
      (May : Error → Type 0) (key : Bytes) (d : Tables)
      → IsTracked d
      → Ran May (Shows (update key (record (view d key) { lease = 0 }) (view d))) (
          update_key_tracker key no_flags lease_flag
            (record d { lease_entries = without key d.lease_entries }))
  lease_gone-Shows May key d tracked =
      let gone = find-without_self key d.lease_entries in
      let flags : record (flags_at key d) { lease = false }
          ≡ flags_at key (record d { lease_entries = without key d.lease_entries }) =
        Flags-ext _ _ refl refl (sym (ap is_some gone)) in
      update_key_tracker-Shows May key (record (view d key) { lease = 0 }) no_flags lease_flag d _
        tracked
        (lease-Changed key none _ d gone (λ j ne. find-without_other key j d.lease_entries ne))
        (remove_lease (flags_at key d) ∙ flags)
        (λ empty. fresh_lease (flags_at key d) false empty ∙ flags)

  -- What a guarded statement on the lease of a key, and the tracker after it, come to.
  pub lease_row-Shows :
      (May : Error → Type 0) (s : Statement) (failure : Error) (key : Bytes) (token : ℕ)
      (blocked : Bool) (rows : List (Bytes × ℤ)) (run : Tables → Tables × ℕ) (d : Tables)
      → IsTracked d
      → token < 2 ^ 64
      → run d ≡ (if blocked then (d, 0) else (record d { lease_entries = rows }, 1))
      → (blocked ≡ false → find key rows ≡ some (to_int64 token))
      → ((j : Bytes) → (key =? j) ≡ false → find j rows ≡ find j d.lease_entries)
      → (blocked ≡ true → May failure)
      → Ran May
          (λ d' u.
            (blocked ≡ false)
            × Shows (update key (record (view d key) { lease = token }) (view d)) d' u)
          ((exec s run >>= affected failure (update_key_tracker key lease_flag no_flags)) d)
  lease_row-Shows May s failure key token true rows run d tracked word e set others may =
      affected-Ran May _ s run d failure _ (inl (ap (λ r. r.1) e, may refl))
  lease_row-Shows May s failure key token false rows run d tracked word e set others may =
      affected-Ran May _ s run d failure _ (
        inr (
          ap (λ r. r.1) e,
          subst
              (λ r.
                Ran May
                  (λ d' u.
                    (false ≡ false)
                    × Shows (update key (record (view d key) { lease = token }) (view d)) d' u)
                  (update_key_tracker key lease_flag no_flags r.0))
              (sym e)
              (Ran-map May _ _ _
                (λ d' u g. (
                  refl,
                  (
                    g.0,
                    g.1
                        ∙ ap (λ w. update key (record (view d key) { lease = w }) (view d))
                            (from_int64-to_int64 token word),
                  ),
                ))
                (lease_set-Shows May key (to_int64 token) rows d tracked (set refl) others)),
        ))

  pub pure-Ran :
      (May : Error → Type 0) (token : ℕ) (G : Tables → Unit {0} → Type 0) (H : Tables → ℕ → Type 0)
      (r : Result (Tables × Unit {0}))
      → ((d : Tables) → G d tt → H d token)
      → Ran May G r
      → Ran May H (then_ r (λ _. pure token))
  pure-Ran May token G H r f g = then-Ran May G H r (λ _. pure token) g (λ d u x. ran (f d x))
