-- ===== src/Kv/Memory/Grants.antt =====
-- kv/memory/lease.go: Acquire and Renew where nothing stands against them.
use specter.Prelude.{
  ℕ, ◌+◌, ◌<◌, ltb, if◌then◌else◌, ◌≤◌, ◌≡◌, refl, ap, sym, ◌∙◌, some, Bytes, ==_iff, arith,
}
use specter.Prelude.Int.{pos}
use specter.Errors.{Error, Result, ok}
use specter.Kv.Lease.{second, max_int64, duration_guard, next}
use specter.Kv.Lease.Bounds.{duration_guard_bounds}
use specter.Kv.Memory.{Backend, MemoryKv, fetch_val}
use specter.Kv.Memory.View.{view, view-fetch_val}
use specter.Kv.Memory.Exclusion.{lease-fetch_val}
use specter.Kv.Memory.Leases.{
  swap_lease, finish, acquire_load, acquire_read, acquire_check, acquire, renew_load, renew_read,
  renew_check, renew,
}

acquire_check_grants :
    (c td now : ℕ)
    → second ≤ td
    → now + td ≤ max_int64
    → c ≤ now
    → acquire_check c td (pos now) ≡ ok (c, now + td)
unfolding acquire_check next
acquire_check_grants c td now s h l = ground arith

renew_check_grants :
    (td now prev : ℕ)
    → second ≤ td
    → now + td ≤ max_int64
    → now < prev
    → prev < max_int64
    → renew_check prev td (pos now) prev
      ≡ ok (prev, if ltb (now + td) (prev + 1) then prev + 1 else now + td)
unfolding renew_check next
renew_check_grants td now prev s h l p = ground arith

module _ ⦃b : Backend⦄ where
  swap_lease_takes :
      (k : Bytes) (c nxt : ℕ) (failure : Error) (m : MemoryKv)
      → (view m k).lease ≡ c
      → (swap_lease k c nxt failure m).1 ≡ ok nxt
  unfolding swap_lease
  swap_lease_takes k c nxt failure m e =
      rw ((==_iff (fetch_val k m).1.lease c).1 (lease-fetch_val k m ∙ e)) refl

  finish_takes :
      (k : Bytes) (c nxt : ℕ) (failure : Error) (m : MemoryKv) (r : Result (ℕ × ℕ))
      → r ≡ ok (c, nxt)
      → (view m k).lease ≡ c
      → (finish k failure (m, r)).1 ≡ ok nxt
  finish_takes k c nxt failure m r e l =
      ap (λ x. (finish k failure (m, x)).1) e
      ∙ (unfold finish in swap_lease_takes k c nxt failure m l)

  -- Where the lease is free or expired by the clock, the duration is a second at least and the
  -- expiry is within int64, Acquire succeeds, and its token is the time plus the whole seconds
  -- of the duration.
  pub acquire_granted :
      (k : Bytes) (t td now : ℕ) (m : MemoryKv)
      → duration_guard (pos t) ≡ some td
      → now + td ≤ max_int64
      → (view m k).lease ≤ now
      → (acquire k (pos t) (pos now) m).1 ≡ ok (now + td)
  unfolding acquire acquire_load acquire_read
  acquire_granted k t td now m g h l = rw g (
      finish_takes k (fetch_val k m).1.lease (now + td) _ (fetch_val k m).0 _
        (acquire_check_grants (fetch_val k m).1.lease td now (duration_guard_bounds t td g).0 h
          (omega (arith, l, lease-fetch_val k m)))
        (ap (λ s. (s k).lease) (view-fetch_val k m) ∙ sym (lease-fetch_val k m)))

  -- Where the given token is the one stored, live by the clock and below the largest int64, the
  -- duration is a second at least and the new expiry is within int64, Renew succeeds, and its
  -- token is the later of the new expiry and the successor of the given token.
  renew_granted :
      (k : Bytes) (t td now token : ℕ) (m : MemoryKv)
      → duration_guard (pos t) ≡ some td
      → now + td ≤ max_int64
      → (view m k).lease ≡ token
      → now < token
      → token < max_int64
      → (renew k (pos t) (pos now) token m).1
        ≡ ok (if ltb (now + td) (token + 1) then token + 1 else now + td)
  unfolding renew renew_load renew_read
  renew_granted k t td now token m g h e l p = rw g (
      finish_takes k token _ _ (fetch_val k m).0 _
        (ap (λ c. renew_check c td (pos now) token) (lease-fetch_val k m ∙ e)
          ∙ renew_check_grants td now token (duration_guard_bounds t td g).0 h l p)
        (ap (λ s. (s k).lease) (view-fetch_val k m) ∙ e))
