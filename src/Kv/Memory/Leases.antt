-- ===== src/Kv/Memory/Leases.antt =====
-- kv/memory/lease.go: leases over compare-and-swap. Acquire and Renew are each in two parts, up to
-- the CompareAndSwap and from there on, so that other operations can run in between. The clock is
-- an argument.
use specter.Prelude.{
  ℕ, ◌+◌, ◌-◌, Bool, true, false, Option, none, some, Bytes, ltb, leb, ◌==◌, if◌then◌else◌, ◌^◌,
}
use specter.Prelude.Int.{ℤ, pos, negsuc}
use specter.Errors.{
  Error, Result, ok, err, ◌>>=◌, chord, kv_lease_conflict, kv_lease_expired, kv_lease_invalid_ttl,
}
use specter.Kv.Lease.{duration_guard, next}
use specter.Kv.Memory.{Backend, MemoryKv, write, fetch_val}

-- `curr > uint64(ref.UnixNano())`; a time before 1970 has been refused before this test.
abbrev pub later_than : ℕ → ℤ → Bool
later_than curr (pos now) = ltb now curr
later_than curr (negsuc n) = ltb (2 ^ 64 - (n + 1)) curr

-- `now.UnixNano() >= int64(curr)`: a value of 2^63 or more is a negative int64.
abbrev pub reached : ℤ → ℕ → Bool
reached (pos now) curr = if ltb curr (2 ^ 63) then leb curr now else true
reached (negsuc n) curr = if ltb curr (2 ^ 63) then false else leb (n + 1) (2 ^ 64 - curr)

-- Acquire after its guard, up to the CompareAndSwap: the checks on the token that it read.
unfoldable pub acquire_check : ℕ → ℕ → ℤ → Result (ℕ × ℕ)
acquire_check curr ttl now = do
  nxt ← next now (pos ttl) 0
  if later_than curr now then err (chord kv_lease_conflict) else ok (curr, nxt)

-- The checks of Renew on the token that it read.
unfoldable pub renew_check : ℕ → ℕ → ℤ → ℕ → Result (ℕ × ℕ)
renew_check curr ttl now prev_token = do
  nxt ← next now (pos ttl) prev_token
  if curr == 0
      then err (chord kv_lease_expired)
      else if reached now curr
      then err (chord kv_lease_expired)
      else if curr == prev_token
      then ok (curr, nxt)
      else err (chord kv_lease_expired)

module _ ⦃b : Backend⦄ where
  -- The CompareAndSwap on the lease of a key, and the error if it fails.
  unfoldable pub swap_lease : Bytes → ℕ → ℕ → Error → MemoryKv → MemoryKv × Result ℕ
  swap_lease lease curr nxt failure m =
      let (m', v) = fetch_val lease m in
      if v.lease == curr
      then (write lease (record v { lease = nxt }) m', ok nxt)
      else (m', err failure)

  -- What a call does once it has read the token `curr` and computed the token `nxt`.
  unfoldable pub finish : Bytes → Error → MemoryKv × Result (ℕ × ℕ) → MemoryKv × Result ℕ
  finish lease failure (m, err e) = (m, err e)
  finish lease failure (m, ok (curr, nxt)) = swap_lease lease curr nxt failure m

  unfoldable pub acquire_read : Bytes → Option ℕ → ℤ → MemoryKv → MemoryKv × Result (ℕ × ℕ)
  acquire_read lease none now m = (m, err (chord kv_lease_invalid_ttl))
  acquire_read lease (some ttl) now m =
      let (m', v) = fetch_val lease m in (m', acquire_check v.lease ttl now)

  unfoldable pub acquire_load : Bytes → ℤ → ℤ → MemoryKv → MemoryKv × Result (ℕ × ℕ)
  acquire_load lease ttl now m = acquire_read lease (duration_guard ttl) now m

  -- Acquire
  unfoldable pub acquire : Bytes → ℤ → ℤ → MemoryKv → MemoryKv × Result ℕ
  acquire lease ttl now m = finish lease (chord kv_lease_conflict) (acquire_load lease ttl now m)

  unfoldable pub renew_read : Bytes → Option ℕ → ℤ → ℕ → MemoryKv → MemoryKv × Result (ℕ × ℕ)
  renew_read lease none now prev_token m = (m, err (chord kv_lease_invalid_ttl))
  renew_read lease (some ttl) now prev_token m =
      let (m', v) = fetch_val lease m in (m', renew_check v.lease ttl now prev_token)

  unfoldable pub renew_load : Bytes → ℤ → ℤ → ℕ → MemoryKv → MemoryKv × Result (ℕ × ℕ)
  renew_load lease ttl now prev_token m = renew_read lease (duration_guard ttl) now prev_token m

  -- Renew
  unfoldable pub renew : Bytes → ℤ → ℤ → ℕ → MemoryKv → MemoryKv × Result ℕ
  renew lease ttl now prev_token m =
      finish lease (chord kv_lease_expired) (renew_load lease ttl now prev_token m)

  -- Release
  unfoldable pub release : Bytes → ℕ → MemoryKv → MemoryKv × Result ℕ
  release lease token m = swap_lease lease token 0 (chord kv_lease_expired) m
