-- ===== src/Kv/Memory/Exclusion.antt =====
-- kv/memory/lease.go: calls for one lease, interleaved between the read of a token and its
-- compare-and-swap.
use specter.Prelude.{
  ℕ, ◌+◌, ◌≤◌, ◌<◌, ◌≡◌, ◌≢◌, refl, ap, sym, ◌∙◌, Option, none, some, inl, inr, Bytes, ◌==◌, ==_iff,
  arith, Bool-cases, nat_eq, bytes_eq,
}
use specter.Prelude.Int.{ℤ, pos}
use specter.Errors.{Error, Result, ok, err}
use specter.Kv.Lease.{second, max_int64, duration_guard, next}
use specter.Kv.Spec.{update}
use specter.Kv.Memory.{Backend, MemoryKv, fetch_val}
use specter.Kv.Memory.View.{view, cell-fetch_val, view-fetch_val}
use specter.Kv.Memory.Refinement.{view-write-fetch_val}
use specter.Kv.Memory.Leases.{
  swap_lease, finish, acquire_load, acquire_read, acquire_check, release,
}

acquire_check_bounds :
    (c td now curr nxt : ℕ)
    → now ≤ max_int64
    → acquire_check c td (pos now) ≡ ok (curr, nxt)
    → (curr ≤ now) × (now + second ≤ nxt) × (nxt ≤ max_int64)
unfolding acquire_check next
acquire_check_bounds c td now curr nxt h e = ground arith

module _ ⦃b : Backend⦄ where
  -- A call that failed, with nothing changed that a client can see.
  pub data Refused (m : MemoryKv) : MemoryKv × Result ℕ → Type 0 where
    refused : {m' : MemoryKv} {e : Error} → view m' ≡ view m → Refused m (m', err e)

  pub lease-fetch_val : (k : Bytes) (m : MemoryKv) → (fetch_val k m).1.lease ≡ (view m k).lease
  lease-fetch_val k m = ap (λ c. c.lease) (cell-fetch_val k m)

  -- The two outcomes of the compare-and-swap of a lease.
  pub data Swapped (k : Bytes) (curr nxt : ℕ) (failure : Error) (m : MemoryKv)
      : MemoryKv × Result ℕ → Type 0 where
    taken :
        {m' : MemoryKv}
        → (view m k).lease ≡ curr
        → view m' ≡ update k (record (view m k) { lease = nxt }) (view m)
        → Swapped k curr nxt failure m (m', ok nxt)
    lost :
        {m' : MemoryKv}
        → (view m k).lease ≢ curr
        → view m' ≡ view m
        → Swapped k curr nxt failure m (m', err failure)

  pub swap_lease-Swapped :
      (k : Bytes) (curr nxt : ℕ) (failure : Error) (m : MemoryKv)
      → Swapped k curr nxt failure m (swap_lease k curr nxt failure m)
  unfolding swap_lease
  swap_lease-Swapped k curr nxt failure m = elim (Bool-cases ((fetch_val k m).1.lease == curr)) [
    | inl e ↦ rw e (
        taken (sym (lease-fetch_val k m) ∙ (==_iff _ _).0 e) (
          view-write-fetch_val k _ m
          ∙ ap (λ c. update k (record c { lease = nxt }) (view m)) (cell-fetch_val k m)))
    | inr e ↦
        rw e (lost (λ p. cc (e, (==_iff _ _).1 (lease-fetch_val k m ∙ p))) (view-fetch_val k m))
  ]

  -- The token that Acquire read is not later than its clock, and the one it means to store is.
  pub acquire_load_bounds :
      (k : Bytes) (ttl : ℤ) (now : ℕ) (m : MemoryKv) (curr nxt : ℕ)
      → now ≤ max_int64
      → (acquire_load k ttl (pos now) m).1 ≡ ok (curr, nxt)
      → (curr ≤ now) × (now + second ≤ nxt) × (nxt ≤ max_int64)
  unfolding acquire_load
  acquire_load_bounds k ttl now m curr nxt h = read_bounds (duration_guard ttl)
    where
      read_bounds :
          (g : Option ℕ)
          → (acquire_read k g (pos now) m).1 ≡ ok (curr, nxt)
          → (curr ≤ now) × (now + second ≤ nxt) × (nxt ≤ max_int64)
      read_bounds none e = unfold acquire_read in cc
      read_bounds (some td) e =
          acquire_check_bounds (fetch_val k m).1.lease td now curr nxt h (unfold acquire_read in e)

  Swapped-Refused :
      {k : Bytes} {curr nxt : ℕ} {failure : Error} {m : MemoryKv} {r : MemoryKv × Result ℕ}
      → (view m k).lease ≢ curr
      → Swapped k curr nxt failure m r
      → Refused m r
  Swapped-Refused ne (taken e v) = absurd (ne e)
  Swapped-Refused ne (lost _ v) = refused v

  finish-Refused :
      (k : Bytes) (t : ℕ) (failure : Error) (m : MemoryKv) (r : Result (ℕ × ℕ))
      → ((curr nxt : ℕ) → r ≡ ok (curr, nxt) → curr ≤ t)
      → t < (view m k).lease
      → Refused m (finish k failure (m, r))
  unfolding finish
  finish-Refused k t failure m (err e) f lt = refused refl
  finish-Refused k t failure m (ok (curr, nxt)) f lt =
      Swapped-Refused (λ e. absurd (omega (arith, f curr nxt refl)))
        (swap_lease-Swapped k curr nxt failure m)

  -- While the token of a lease lies after an int64 clock time, an Acquire that read the lease at
  -- any earlier state, by a clock that was not past that time, fails at its compare-and-swap or
  -- before, and changes nothing that a client can see.
  pub acquire_excluded :
      (k : Bytes) (ttl : ℤ) (then_ now token : ℕ) (failure : Error) (before m : MemoryKv)
      → then_ ≤ now
      → now ≤ max_int64
      → (view m k).lease ≡ token
      → now < token
      → Refused m (finish k failure (m, (acquire_load k ttl (pos then_) before).1))
  acquire_excluded k ttl t now token failure before m le h held live =
      finish-Refused k t failure m (acquire_load k ttl (pos t) before).1
        (λ curr nxt e. (acquire_load_bounds k ttl t before curr nxt (omega arith) e).0)
        (omega arith)

  -- Release with a token that is not the stored one fails and changes nothing that a client can
  -- see.
  release_excluded :
      (k : Bytes) (other : ℕ) (m : MemoryKv)
      → (view m k).lease ≢ other
      → Refused m (release k other m)
  unfolding release
  release_excluded k other m ne = Swapped-Refused ne (swap_lease-Swapped k other 0 _ m)
