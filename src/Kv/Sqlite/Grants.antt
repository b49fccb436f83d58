-- ===== src/Kv/Sqlite/Grants.antt =====
-- kv/sqlite3/lease.go: when Acquire, Renew and Release succeed, and what clients see then.
use specter.Prelude.{
  ℕ, ◌^◌, ◌<◌, ◌≡◌, refl, ◌∙◌, ◌⊎◌, Bool, true, false, not, ◌&&◌, Option, none, some, inl, inr,
  Bytes, bytes_eq, bytes_beq_iff, if◌then◌else◌, Bool-cases, arith,
}
use specter.Prelude.Int.{ℤ, pos, negsuc}
use specter.Errors.{
  Error, Result, ok, err, chord, kv_lease_conflict, kv_lease_expired, kv_lease_invalid_ttl,
}
use specter.Containers.{find}
use specter.Kv.Spec.{update}
use specter.Kv.Lease.{duration_guard, next}
use specter.Kv.Sqlite.Schema.{Tables, to_int64, int_leb, int_beq, upsert, set_row, find-set_row}
use specter.Kv.Sqlite.{
  Driver, update_key_tracker, no_flags, lease_flag, lease_acquire, lease_renew, lease_release,
}
use specter.Kv.Sqlite.Lease.{
  acquire_at, renew_at, release_at, acquire_tx, guarded_acquire, acquire, renew_tx, guarded_renew,
  renew, release_tx, release,
}
use specter.Kv.Sqlite.Transactions.{
  Ran, refused, Outcome, denied, affected-Ran, with_write_tx-Outcome,
}
use specter.Kv.Sqlite.Tracking.{IsTracked}
use specter.Kv.Sqlite.View.{Ran-map, view, Shows}
use specter.Kv.Sqlite.Refinement.{find-upsert_self, find-upsert_other}
use specter.Kv.Sqlite.Leases.{lease_row-Shows, lease_gone-Shows, pure-Ran}

token_word : (now : ℤ) (td prev token : ℕ) → next now (pos td) prev ≡ ok token → token < 2 ^ 64
unfolding next
token_word (pos nanos) td prev token e = ground arith
token_word (negsuc nanos) td prev token e = cc

-- Does the lease, as it is stored, stand against the operation?
unfoldable pub acquire_blocked : ℤ → Option ℤ → Bool
acquire_blocked now none = false
acquire_blocked now (some held) = not (int_leb held now)

unfoldable pub renew_blocked : ℤ → ℤ → Option ℤ → Bool
renew_blocked prev now none = true
renew_blocked prev now (some held) = not (int_beq held prev && not (int_leb held now))

unfoldable pub release_blocked : ℤ → Option ℤ → Bool
release_blocked token none = true
release_blocked token (some held) = not (int_beq held token)

-- The errors of Acquire and Renew.
pub data Refusal (failure : Error) (blocked : Bool) (ttl now : ℤ) (prev : ℕ) : Error → Type 0 where
  bad_ttl :
      duration_guard ttl ≡ none → Refusal failure blocked ttl now prev (chord kv_lease_invalid_ttl)
  no_token :
      {e : Error} (td : ℕ)
      → duration_guard ttl ≡ some td
      → next now (pos td) prev ≡ err e
      → Refusal failure blocked ttl now prev e
  stands : blocked ≡ true → Refusal failure blocked ttl now prev failure

renewed_row :
    (key : Bytes) (t prev now : ℤ) (d : Tables) (o : Option ℤ)
    → find key d.lease_entries ≡ o
    → renew_blocked prev now o ≡ false
    → find key (set_row key t d.lease_entries) ≡ some t
unfolding renew_blocked
renewed_row key t prev now d none e free = cc
renewed_row key t prev now d (some h) e free =
    find-set_row key key t d.lease_entries ∙ rw ((bytes_beq_iff key key).1 refl, e) refl

module _ ⦃c : Driver⦄ where
  acquire_at-blocked :
      (key : Bytes) (t now : ℤ) (d : Tables) (o : Option ℤ)
      → acquire_at key t now d o ≡ (
          if acquire_blocked now o
          then (d, 0)
          else (record d { lease_entries = upsert key t d.lease_entries }, 1))
  unfolding acquire_at acquire_blocked
  acquire_at-blocked key t now d none = refl
  acquire_at-blocked key t now d (some h) = elim (Bool-cases (int_leb h now)) [
    | inl e ↦ rw e refl
    | inr e ↦ rw e refl
  ]

  renew_at-blocked :
      (key : Bytes) (t prev now : ℤ) (d : Tables) (o : Option ℤ)
      → renew_at key t prev now d o ≡ (
          if renew_blocked prev now o
          then (d, 0)
          else (record d { lease_entries = set_row key t d.lease_entries }, 1))
  unfolding renew_at renew_blocked
  renew_at-blocked key t prev now d none = refl
  renew_at-blocked key t prev now d (some h) =
      elim (Bool-cases (int_beq h prev && not (int_leb h now))) [
        | inl e ↦ rw e refl
        | inr e ↦ rw e refl
      ]

  -- The token that was granted, and what clients see then.
  pub record Granted (key : Bytes) (blocked : Bool) (ttl now : ℤ) (prev : ℕ) (d d' : Tables)
      (token : ℕ) : Type 0 where
    pub td : ℕ
    pub guarded : duration_guard ttl ≡ some td
    pub granted : next now (pos td) prev ≡ ok token
    pub free : blocked ≡ false
    pub shows : Shows (update key (record (view d key) { lease = token }) (view d)) d' tt

  acquire_tx-Ran :
      (key : Bytes) (ttl now : ℤ) (td : ℕ) (r : Result ℕ) (d : Tables)
      → IsTracked d
      → duration_guard ttl ≡ some td
      → next now (pos td) 0 ≡ r
      → let blocked = acquire_blocked now (find key d.lease_entries) in
        Ran
          (Refusal (chord kv_lease_conflict) blocked ttl now 0)
          (Granted key blocked ttl now 0 d)
          (acquire_tx key now r d)
  unfolding acquire_tx
  acquire_tx-Ran key ttl now td (err e) d tracked g n = refused (no_token td g n)
  acquire_tx-Ran key ttl now td (ok token) d tracked g n =
      pure-Ran _ token _ _ _
        (λ d' s. record { td = td; guarded = g; granted = n; free = s.0; shows = s.1 })
        (lease_row-Shows _ lease_acquire (chord kv_lease_conflict) key token _ _ _ d tracked
          (token_word now td 0 token n)
          (acquire_at-blocked key (to_int64 token) now d (find key d.lease_entries))
          (λ _. find-upsert_self key (to_int64 token) d.lease_entries)
          (λ j ne. find-upsert_other key j (to_int64 token) d.lease_entries ne) (λ b. stands b))

  guarded_acquire-Outcome :
      (key : Bytes) (ttl now : ℤ) (g : Option ℕ) (d : Tables)
      → IsTracked d
      → duration_guard ttl ≡ g
      → let blocked = acquire_blocked now (find key d.lease_entries) in
        Outcome
          (Refusal (chord kv_lease_conflict) blocked ttl now 0)
          (Granted key blocked ttl now 0 d)
          d
          (guarded_acquire key now g d)
  unfolding guarded_acquire
  guarded_acquire-Outcome key ttl now none d tracked g = denied (bad_ttl g)
  guarded_acquire-Outcome key ttl now (some td) d tracked g =
      with_write_tx-Outcome _ _ _ d
        (acquire_tx-Ran key ttl now td (next now (pos td) 0) d tracked g refl)

  renew_tx-Ran :
      (key : Bytes) (ttl now : ℤ) (prev td : ℕ) (r : Result ℕ) (d : Tables)
      → IsTracked d
      → duration_guard ttl ≡ some td
      → next now (pos td) prev ≡ r
      → let blocked = renew_blocked (to_int64 prev) now (find key d.lease_entries) in
        Ran
          (Refusal (chord kv_lease_expired) blocked ttl now prev)
          (Granted key blocked ttl now prev d)
          (renew_tx key now prev r d)
  unfolding renew_tx
  renew_tx-Ran key ttl now prev td (err e) d tracked g n = refused (no_token td g n)
  renew_tx-Ran key ttl now prev td (ok token) d tracked g n =
      pure-Ran _ token _ _ _
        (λ d' s. record { td = td; guarded = g; granted = n; free = s.0; shows = s.1 })
        (lease_row-Shows _ lease_renew (chord kv_lease_expired) key token _ _ _ d tracked
          (token_word now td prev token n)
          (renew_at-blocked key (to_int64 token) (to_int64 prev) now d (find key d.lease_entries))
          (renewed_row key (to_int64 token) (to_int64 prev) now d (find key d.lease_entries) refl)
          (λ j ne. find-set_row key j (to_int64 token) d.lease_entries ∙ rw ne refl)
          (λ b. stands b))

  guarded_renew-Outcome :
      (key : Bytes) (ttl now : ℤ) (prev : ℕ) (g : Option ℕ) (d : Tables)
      → IsTracked d
      → duration_guard ttl ≡ g
      → let blocked = renew_blocked (to_int64 prev) now (find key d.lease_entries) in
        Outcome
          (Refusal (chord kv_lease_expired) blocked ttl now prev)
          (Granted key blocked ttl now prev d)
          d
          (guarded_renew key now prev g d)
  unfolding guarded_renew
  guarded_renew-Outcome key ttl now prev none d tracked g = denied (bad_ttl g)
  guarded_renew-Outcome key ttl now prev (some td) d tracked g =
      with_write_tx-Outcome _ _ _ d
        (renew_tx-Ran key ttl now prev td (next now (pos td) prev) d tracked g refl)

  abbrev pub NotHeld : Bool → Error → Type 0
  NotHeld blocked e = (e ≡ chord kv_lease_expired) × (blocked ≡ true)

  release_row-cases :
      (key : Bytes) (t : ℤ) (d : Tables) (o : Option ℤ)
      → IsTracked d
      → (((release_at key t d o).1 ≡ 0) × NotHeld (release_blocked t o) (chord kv_lease_expired))
        ⊎ (((release_at key t d o).1 ≡ 1)
            × Ran
                (NotHeld (release_blocked t o))
                (λ d' u.
                  (release_blocked t o ≡ false)
                  × Shows (update key (record (view d key) { lease = 0 }) (view d)) d' u)
                (update_key_tracker key no_flags lease_flag (release_at key t d o).0))
  unfolding release_at release_blocked
  release_row-cases key t d none tracked = inl (refl, (refl, refl))
  release_row-cases key t d (some h) tracked = elim (Bool-cases (int_beq h t)) [
    | inl e ↦
        rw e (inr (refl, Ran-map _ _ _ _ (λ d' u s. (refl, s)) (lease_gone-Shows _ key d tracked)))
    | inr e ↦ rw e (inl (refl, (refl, refl)))
  ]

  release_tx-Ran :
      (key : Bytes) (token : ℕ) (d : Tables)
      → IsTracked d
      → let blocked = release_blocked (to_int64 token) (find key d.lease_entries) in
        Ran
          (NotHeld blocked)
          (λ d' u.
            (blocked ≡ false)
            × Shows (update key (record (view d key) { lease = 0 }) (view d)) d' u)
          (release_tx key token d)
  unfolding release_tx
  release_tx-Ran key token d tracked =
      affected-Ran _ _ lease_release _ d _ _
        (release_row-cases key (to_int64 token) d (find key d.lease_entries) tracked)

  -- Where every key has the tracker that its rows call for, Acquire, Renew and Release either
  -- commit, change the lease of the key to the new token, or to none for Release, and no more
  -- that clients see, with the trackers right; or leave the tables unchanged. Acquire and Renew
  -- commit only with a token that Next gives for the whole seconds of the duration, Acquire only
  -- if the stored token is not after the clock, Renew only if it is the given one and after the
  -- clock, Release only if it is the given one; they refuse only by a failure of the database,
  -- by the invalid duration, by the error of Next, or because that condition fails.
  pub leases-Outcome :
      (key : Bytes) (ttl now : ℤ) (token : ℕ) (d : Tables)
      → IsTracked d
      → let stored = find key d.lease_entries in
        Outcome
          (Refusal (chord kv_lease_conflict) (acquire_blocked now stored) ttl now 0)
          (Granted key (acquire_blocked now stored) ttl now 0 d)
          d
          (acquire key ttl now d)
        × Outcome
            (Refusal
              (chord kv_lease_expired)
              (renew_blocked (to_int64 token) now stored)
              ttl
              now
              token)
            (Granted key (renew_blocked (to_int64 token) now stored) ttl now token d)
            d
            (renew key ttl now token d)
        × Outcome
            (NotHeld (release_blocked (to_int64 token) stored))
            (λ d' u.
              (release_blocked (to_int64 token) stored ≡ false)
              × Shows (update key (record (view d key) { lease = 0 }) (view d)) d' u)
            d
            (release key token d)
  unfolding acquire renew release
  leases-Outcome key ttl now token d tracked = (
    guarded_acquire-Outcome key ttl now (duration_guard ttl) d tracked refl,
    guarded_renew-Outcome key ttl now token (duration_guard ttl) d tracked refl,
    with_write_tx-Outcome _ _ (release_tx key token) d (release_tx-Ran key token d tracked),
  )
