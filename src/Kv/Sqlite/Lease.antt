-- ===== src/Kv/Sqlite/Lease.antt =====
-- kv/sqlite3/lease.go: Acquire, Renew and Release. The clock is an argument.
use specter.Prelude.{ℕ, not, ◌&&◌, Option, none, some, Bytes, bytes_eq, if◌then◌else◌}
use specter.Prelude.Int.{ℤ, pos}
use specter.Errors.{
  Result, ok, err, chord, kv_lease_conflict, kv_lease_expired, kv_lease_invalid_ttl,
}
use specter.Containers.{find}
use specter.Containers.Assoc.{without}
use specter.Kv.Lease.{duration_guard, next}
use specter.Kv.Sqlite.Schema.{Tables, to_int64, int_leb, int_beq, upsert, set_row}
use specter.Kv.Sqlite.{
  lease_acquire, lease_renew, lease_release, Driver, Tx, no_flags, lease_flag, pure, fail, exec,
  with_write_tx, update_key_tracker, affected, ◌>>=◌,
}

module _ ⦃c : Driver⦄ where
  -- The rows affected, and the table, of `queryLeaseAcquire`: the update needs `token <= now`.
  unfoldable pub acquire_at : Bytes → ℤ → ℤ → Tables → Option ℤ → Tables × ℕ
  acquire_at lease token now d none =
      (record d { lease_entries = upsert lease token d.lease_entries }, 1)
  acquire_at lease token now d (some held) =
      if int_leb held now
      then (record d { lease_entries = upsert lease token d.lease_entries }, 1)
      else (d, 0)

  -- `queryLeaseRenew`
  unfoldable pub renew_at : Bytes → ℤ → ℤ → ℤ → Tables → Option ℤ → Tables × ℕ
  renew_at lease token prev now d none = (d, 0)
  renew_at lease token prev now d (some held) =
      if int_beq held prev && not (int_leb held now)
      then (record d { lease_entries = set_row lease token d.lease_entries }, 1)
      else (d, 0)

  -- `queryLeaseRelease`
  unfoldable pub release_at : Bytes → ℤ → Tables → Option ℤ → Tables × ℕ
  release_at lease token d none = (d, 0)
  release_at lease token d (some held) =
      if int_beq held token
      then (record d { lease_entries = without lease d.lease_entries }, 1)
      else (d, 0)

  -- The transaction of Acquire, from the token that Next gives.
  unfoldable pub acquire_tx : Bytes → ℤ → Result ℕ → Tx ℕ
  acquire_tx lease now (err e) = fail e
  acquire_tx lease now (ok token) =
      exec lease_acquire (λ d. acquire_at lease (to_int64 token) now d (find lease d.lease_entries))
      >>= affected (chord kv_lease_conflict) (update_key_tracker lease lease_flag no_flags)
      >>= λ _. pure token

  unfoldable pub guarded_acquire : Bytes → ℤ → Option ℕ → Tables → Tables × Result ℕ
  guarded_acquire lease now none d = (d, err (chord kv_lease_invalid_ttl))
  guarded_acquire lease now (some ttl) d =
      with_write_tx (acquire_tx lease now (next now (pos ttl) 0)) d

  -- Acquire
  unfoldable pub acquire : Bytes → ℤ → ℤ → Tables → Tables × Result ℕ
  acquire lease ttl now d = guarded_acquire lease now (duration_guard ttl) d

  unfoldable pub renew_tx : Bytes → ℤ → ℕ → Result ℕ → Tx ℕ
  renew_tx lease now prev (err e) = fail e
  renew_tx lease now prev (ok token) =
      exec lease_renew
        (λ d. renew_at lease (to_int64 token) (to_int64 prev) now d (find lease d.lease_entries))
      >>= affected (chord kv_lease_expired) (update_key_tracker lease lease_flag no_flags)
      >>= λ _. pure token

  unfoldable pub guarded_renew : Bytes → ℤ → ℕ → Option ℕ → Tables → Tables × Result ℕ
  guarded_renew lease now prev none d = (d, err (chord kv_lease_invalid_ttl))
  guarded_renew lease now prev (some ttl) d =
      with_write_tx (renew_tx lease now prev (next now (pos ttl) prev)) d

  -- Renew
  unfoldable pub renew : Bytes → ℤ → ℤ → ℕ → Tables → Tables × Result ℕ
  renew lease ttl now prev d = guarded_renew lease now prev (duration_guard ttl) d

  -- Release
  unfoldable pub release_tx : Bytes → ℕ → Tx (Unit {0})
  release_tx lease token =
      exec lease_release (λ d. release_at lease (to_int64 token) d (find lease d.lease_entries))
      >>= affected (chord kv_lease_expired) (update_key_tracker lease no_flags lease_flag)

  unfoldable pub release : Bytes → ℕ → Tables → Tables × Result (Unit {0})
  release lease token = with_write_tx (release_tx lease token)
