-- ===== src/Ring.antt =====
-- spec/chord/chord.go: arithmetic on the identifier circle and the successor lists. The clockwise
-- distance is the independent reading of `Between`; the proofs are in the modules below.
pub mod Distance
pub mod SuccList
use specter.Prelude.{ℕ, ◌+◌, ◌-◌, ◌%◌, ◌^◌, Bool, ◌&&◌, ◌||◌, Bytes, ltb, ◌==◌, if◌then◌else◌}

-- MaxFingerEntries
abbrev pub max_finger_entries : ℕ
max_finger_entries = 48

-- ExtendedSuccessorEntries
abbrev pub extended_successor_entries : ℕ
extended_successor_entries = 4

-- MaxIdentitifer, 1 << 48
abbrev pub max_identifier : ℕ
max_identifier = 281474976710656

-- Hash, over the third-party `xxh3.Hash`.
unfoldable pub hash : (Bytes → ℕ) → Bytes → ℕ
hash xxh3 b = xxh3 b % max_identifier

-- ModuloSum: the uint64 sum of the two remainders, then one more remainder.
unfoldable pub modulo_sum : ℕ → ℕ → ℕ
modulo_sum x y = (x % max_identifier + y % max_identifier) % 2 ^ 64 % max_identifier

-- Between
unfoldable pub between : ℕ → ℕ → ℕ → Bool → Bool
between low target high inclusive =
    if ltb low high
    then (ltb low target && ltb target high) || (inclusive && target == high)
    else ltb low target || (ltb target high || (inclusive && target == high))

-- The number of steps clockwise from the first identifier to the second: a full turn to itself.
unfoldable pub distance : ℕ → ℕ → ℕ
distance a b = if ltb a b then b - a else b + max_identifier - a
