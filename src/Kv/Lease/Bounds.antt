-- ===== src/Kv/Lease/Bounds.antt =====
-- kv/internal/lease/token.go and the guard of kv/memory/lease.go: the range of their results.
use specter.Prelude.{ℕ, ◌+◌, ◌≤◌, ◌<◌, ◌≡◌, ◌⊎◌, refl, some, arith}
use specter.Prelude.Int.{ℤ, pos, negsuc}
use specter.Errors.{ok}
use specter.Kv.Lease.{second, max_int64, duration_guard, next}

-- A token that is granted by an int64 clock time lies past the previous one, within int64, and
-- no earlier than the asked expiry, the asked duration is a second at least, and the token is
-- the asked expiry or the successor of the previous token.
pub next_bounds :
    (nanos ttl previous token : ℕ)
    → nanos ≤ max_int64
    → next (pos nanos) (pos ttl) previous ≡ ok token
    → (previous < token)
      × (token ≤ max_int64)
      × (second ≤ ttl)
      × (nanos + ttl ≤ token)
      × ((token ≡ nanos + ttl) ⊎ (token ≡ previous + 1))
unfolding next
next_bounds nanos ttl previous token h e = ground arith

-- A time before 1970 or a negative duration is never granted a token.
pub next_signs :
    (now ttl : ℤ) (previous token : ℕ)
    → next now ttl previous ≡ ok token
    → (nanos t : ℕ) × (now ≡ pos nanos) × (ttl ≡ pos t)
unfolding next
next_signs (pos nanos) (pos t) previous token e = (nanos, t, refl, refl)
next_signs (pos nanos) (negsuc t) previous token e = cc
next_signs (negsuc nanos) _ previous token e = cc

-- The guard keeps the whole seconds of a duration of a second or more.
pub duration_guard_bounds :
    (t td : ℕ) → duration_guard (pos t) ≡ some td → (second ≤ td) × (td ≤ t) × (t < td + second)
unfolding duration_guard
duration_guard_bounds t td e = ground arith
