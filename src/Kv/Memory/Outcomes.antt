-- ===== src/Kv/Memory/Outcomes.antt =====
-- kv/memory/lease.go: every outcome of Acquire and of Renew.
use specter.Prelude.{
  ℕ, ◌+◌, ◌≤◌, ◌<◌, ◌≡◌, refl, ap, sym, ◌∙◌, Option, none, some, Bytes, arith, nat_eq, bytes_eq,
}
use specter.Prelude.Int.{ℤ, pos}
use specter.Errors.{Error, Result, ok, err}
use specter.Kv.Lease.{second, max_int64, duration_guard, next}
use specter.Kv.Spec.{update}
use specter.Kv.Memory.{Backend, MemoryKv, fetch_val}
use specter.Kv.Memory.View.{view, view-fetch_val}
use specter.Kv.Memory.Leases.{
  finish, acquire_load, acquire_read, acquire, renew_load, renew_read, renew_check, renew,
}
use specter.Kv.Memory.Exclusion.{Swapped, taken, lost, swap_lease-Swapped, acquire_load_bounds}

renew_check_bounds :
    (c td now prev curr nxt : ℕ)
    → now ≤ max_int64
    → renew_check c td (pos now) prev ≡ ok (curr, nxt)
    → (curr ≡ prev) × (now < prev) × (prev < nxt) × (now + second ≤ nxt)
unfolding renew_check next
renew_check_bounds c td now prev curr nxt h e = ground arith

module _ ⦃b : Backend⦄ where
  -- What Acquire promises: a free or expired lease changes to a token at least a second ahead,
  -- or the call fails and nothing changes that a client can see.
  pub data Acquired (k : Bytes) (now : ℕ) (m : MemoryKv) : MemoryKv × Result ℕ → Type 0 where
    granted :
        {m' : MemoryKv} {token : ℕ}
        → (view m k).lease ≤ now
        → now + second ≤ token
        → token ≤ max_int64
        → view m' ≡ update k (record (view m k) { lease = token }) (view m)
        → Acquired k now m (m', ok token)
    denied : {m' : MemoryKv} {e : Error} → view m' ≡ view m → Acquired k now m (m', err e)

  view-acquire_load :
      (k : Bytes) (ttl now : ℤ) (m : MemoryKv) → view (acquire_load k ttl now m).0 ≡ view m
  unfolding acquire_load
  view-acquire_load k ttl now m = view_read (duration_guard ttl)
    where
      view_read : (g : Option ℕ) → view (acquire_read k g now m).0 ≡ view m
      view_read none = unfold acquire_read in refl
      view_read (some td) = unfold acquire_read in view-fetch_val k m

  rebase :
      (k : Bytes) (nxt : ℕ) (m m' : MemoryKv)
      → view m' ≡ view m
      → update k (record (view m' k) { lease = nxt }) (view m')
        ≡ update k (record (view m k) { lease = nxt }) (view m)
  rebase k nxt m m' e = ap (λ s. update k (record (s k) { lease = nxt }) s) e

  Swapped-granted :
      (k : Bytes) (now curr nxt : ℕ) (failure : Error) (m m' : MemoryKv) (r : MemoryKv × Result ℕ)
      → view m' ≡ view m
      → (curr ≤ now) × (now + second ≤ nxt) × (nxt ≤ max_int64)
      → Swapped k curr nxt failure m' r
      → Acquired k now m r
  Swapped-granted k now curr nxt failure m m' r same bounds (taken e v) =
      granted (omega (arith, ap (λ s. (s k).lease) same)) bounds.1 bounds.2
        (v ∙ rebase k nxt m m' same)
  Swapped-granted k now curr nxt failure m m' r same bounds (lost ne v) = denied (v ∙ same)

  finish-Acquired :
      (k : Bytes) (now : ℕ) (failure : Error) (m m' : MemoryKv) (r : Result (ℕ × ℕ))
      → view m' ≡ view m
      → ((curr nxt : ℕ)
          → r ≡ ok (curr, nxt)
          → (curr ≤ now) × (now + second ≤ nxt) × (nxt ≤ max_int64))
      → Acquired k now m (finish k failure (m', r))
  unfolding finish
  finish-Acquired k now failure m m' (err e) same f = denied same
  finish-Acquired k now failure m m' (ok (curr, nxt)) same f =
      Swapped-granted k now curr nxt failure m m' _ same (f curr nxt refl)
        (swap_lease-Swapped k curr nxt failure m')

  -- By an int64 clock time, Acquire either fails and changes nothing that a client can see, or
  -- finds no live lease and stores and returns a token at least a second ahead, within int64,
  -- and changes nothing else.
  pub acquire-Acquired :
      (k : Bytes) (ttl : ℤ) (now : ℕ) (m : MemoryKv)
      → now ≤ max_int64
      → Acquired k now m (acquire k ttl (pos now) m)
  unfolding acquire
  acquire-Acquired k ttl now m h =
      finish-Acquired k now _ m (acquire_load k ttl (pos now) m).0
        (acquire_load k ttl (pos now) m).1 (view-acquire_load k ttl (pos now) m)
        (λ curr nxt e. acquire_load_bounds k ttl now m curr nxt h e)

  -- What Renew promises: the holder of a live lease gets a later token in place of its own, or
  -- the call fails and nothing changes that a client can see.
  pub data Renewed (k : Bytes) (now prev_token : ℕ) (m : MemoryKv)
      : MemoryKv × Result ℕ → Type 0 where
    extended :
        {m' : MemoryKv} {token : ℕ}
        → (view m k).lease ≡ prev_token
        → now < prev_token
        → prev_token < token
        → now + second ≤ token
        → view m' ≡ update k (record (view m k) { lease = token }) (view m)
        → Renewed k now prev_token m (m', ok token)
    expired :
        {m' : MemoryKv} {e : Error} → view m' ≡ view m → Renewed k now prev_token m (m', err e)

  renew_load_bounds :
      (k : Bytes) (ttl : ℤ) (now prev : ℕ) (m : MemoryKv) (curr nxt : ℕ)
      → now ≤ max_int64
      → (renew_load k ttl (pos now) prev m).1 ≡ ok (curr, nxt)
      → (curr ≡ prev) × (now < prev) × (prev < nxt) × (now + second ≤ nxt)
  unfolding renew_load
  renew_load_bounds k ttl now prev m curr nxt h = read_bounds (duration_guard ttl)
    where
      read_bounds :
          (g : Option ℕ)
          → (renew_read k g (pos now) prev m).1 ≡ ok (curr, nxt)
          → (curr ≡ prev) × (now < prev) × (prev < nxt) × (now + second ≤ nxt)
      read_bounds none e = unfold renew_read in cc
      read_bounds (some td) e =
          renew_check_bounds (fetch_val k m).1.lease td now prev curr nxt h (unfold renew_read in e)

  view-renew_load :
      (k : Bytes) (ttl now : ℤ) (prev : ℕ) (m : MemoryKv)
      → view (renew_load k ttl now prev m).0 ≡ view m
  unfolding renew_load
  view-renew_load k ttl now prev m = view_read (duration_guard ttl)
    where
      view_read : (g : Option ℕ) → view (renew_read k g now prev m).0 ≡ view m
      view_read none = unfold renew_read in refl
      view_read (some td) = unfold renew_read in view-fetch_val k m

  Swapped-extended :
      (k : Bytes) (now prev curr nxt : ℕ) (failure : Error) (m m' : MemoryKv)
      (r : MemoryKv × Result ℕ)
      → view m' ≡ view m
      → (curr ≡ prev) × (now < prev) × (prev < nxt) × (now + second ≤ nxt)
      → Swapped k curr nxt failure m' r
      → Renewed k now prev m r
  Swapped-extended k now prev curr nxt failure m m' r same bounds (taken e v) =
      extended (sym (ap (λ s. (s k).lease) same) ∙ (e ∙ bounds.0)) bounds.1 bounds.2 bounds.3
        (v ∙ rebase k nxt m m' same)
  Swapped-extended k now prev curr nxt failure m m' r same bounds (lost ne v) = expired (v ∙ same)

  finish-Renewed :
      (k : Bytes) (now prev : ℕ) (failure : Error) (m m' : MemoryKv) (r : Result (ℕ × ℕ))
      → view m' ≡ view m
      → ((curr nxt : ℕ)
          → r ≡ ok (curr, nxt)
          → (curr ≡ prev) × (now < prev) × (prev < nxt) × (now + second ≤ nxt))
      → Renewed k now prev m (finish k failure (m', r))
  unfolding finish
  finish-Renewed k now prev failure m m' (err e) same f = expired same
  finish-Renewed k now prev failure m m' (ok (curr, nxt)) same f =
      Swapped-extended k now prev curr nxt failure m m' _ same (f curr nxt refl)
        (swap_lease-Swapped k curr nxt failure m')

  -- By an int64 clock time, Renew either fails and changes nothing that a client can see, or
  -- finds the lease held by the given token and live, and stores and returns a larger token at
  -- least a second ahead, and changes nothing else.
  pub renew-Renewed :
      (k : Bytes) (ttl : ℤ) (now prev_token : ℕ) (m : MemoryKv)
      → now ≤ max_int64
      → Renewed k now prev_token m (renew k ttl (pos now) prev_token m)
  unfolding renew
  renew-Renewed k ttl now prev m h =
      finish-Renewed k now prev _ m (renew_load k ttl (pos now) prev m).0
        (renew_load k ttl (pos now) prev m).1 (view-renew_load k ttl (pos now) prev m)
        (λ curr nxt e. renew_load_bounds k ttl now prev m curr nxt h e)
