-- ===== src/Kv/Lease.antt =====
-- kv/internal/lease/token.go and the duration guard of kv/memory/lease.go: a lease token is the
-- time of its expiry in nanoseconds. Times and durations are int64.
pub mod Bounds
use specter.Prelude.{ℕ, ◌+◌, ◌-◌, ◌%◌, Option, none, some, ltb, leb, if◌then◌else◌}
use specter.Prelude.Int.{ℤ, pos, negsuc}
use specter.Errors.{Result, ok, err, chord, kv_lease_expired, kv_lease_invalid_ttl}

-- time.Second
abbrev pub second : ℕ
second = 1000000000

-- math.MaxInt64
abbrev pub max_int64 : ℕ
max_int64 = 9223372036854775807

-- durationGuard: Truncate rounds towards zero, so a negative duration ends below a second.
unfoldable pub duration_guard : ℤ → Option ℕ
duration_guard (pos t) = let td = t - t % second in if ltb td second then none else some td
duration_guard (negsuc t) = none

max : ℕ → ℕ → ℕ
max a b = if ltb a b then b else a

-- Next
unfoldable pub next : ℤ → ℤ → ℕ → Result ℕ
unfolding max
next (negsuc nanos) ttl previous = err (chord kv_lease_invalid_ttl)
next (pos nanos) (negsuc ttl) previous = err (chord kv_lease_invalid_ttl)
next (pos nanos) (pos ttl) previous =
    if ltb ttl second
    then err (chord kv_lease_invalid_ttl)
    else if ltb (max_int64 - nanos) ttl
    then err (chord kv_lease_invalid_ttl)
    else if leb max_int64 previous
    then err (chord kv_lease_expired)
    else ok (max (nanos + ttl) (previous + 1))
