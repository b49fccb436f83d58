-- ===== src/Ring/Distance.antt =====
-- spec/chord/chord.go: `Between` and `ModuloSum` against the clockwise distance.
use specter.Prelude.{
  ℕ, ◌+◌, ◌%◌, ◌≤◌, ◌<◌, ◌≡◌, ◌≢◌, Bool, true, false, arith, ltb, leb, if◌then◌else◌, Bytes,
}
use specter.Ring.{max_identifier, hash, modulo_sum, between, distance}

-- For three identifiers on the circle, the target is between the low and the high one exactly
-- when the clockwise distance from the low one to it is at most (inclusive) or less than
-- (exclusive) that to the high one.
pub between-distance :
    (low target high : ℕ) (inclusive : Bool)
    → low < max_identifier
    → target < max_identifier
    → high < max_identifier
    → between low target high inclusive ≡ (
        if inclusive
        then leb (distance low target) (distance low high)
        else ltb (distance low target) (distance low high))
unfolding between distance
between-distance low target high true a b c = ground arith
between-distance low target high false a b c = ground arith

pub distance_bounds :
    (a b : ℕ)
    → a < max_identifier
    → b < max_identifier
    → (0 < distance a b) × (distance a b ≤ max_identifier)
unfolding distance
distance_bounds a b h k = ground arith

-- A hop to a node strictly inside the interval to the key leaves a shorter way to the key.
pub distance-lt_of_between :
    (a b k : ℕ)
    → a < max_identifier
    → b < max_identifier
    → k < max_identifier
    → between a b k false ≡ true
    → distance b k < distance a k
unfolding between distance
distance-lt_of_between a b k ha hb hk h = ground arith

-- Two ways clockwise add up to the whole way, when the stop in between is on it.
pub distance-add_of_le :
    (a b c : ℕ)
    → a < max_identifier
    → b < max_identifier
    → c < max_identifier
    → distance a b < distance a c
    → distance a b + distance b c ≡ distance a c
unfolding distance
distance-add_of_le a b c ha hb hc h = ground arith

-- The interval from a node to itself is open at that node alone.
pub between_self_false : (a b : ℕ) → between a b a false ≡ true → a ≢ b
unfolding between
between_self_false a b h = ground arith

pub between_start_false : (a k : ℕ) → between a a k false ≡ false
unfolding between
between_start_false a k = ground arith

pub between_end_true : (a k : ℕ) → between a k k true ≡ true
unfolding between
between_end_true a k = ground arith

-- The arcs (a, b] and (b, c] share no identifier, for nodes met in the order a, b, c.
pub between_disjoint :
    (a b c k : ℕ)
    → a < max_identifier
    → b < max_identifier
    → c < max_identifier
    → k < max_identifier
    → distance a b < distance a c
    → between a k b true ≡ true
    → between b k c true ≡ true
    → ⊥
unfolding between distance
between_disjoint a b c k ha hb hc hk o p q = ground arith

-- For identifiers on the circle, with the second met before the third on the way clockwise from
-- the first, the arcs (a, b] and (b, c] together are the arc (a, c].
between_union :
    (a b c k : ℕ)
    → a < max_identifier
    → b < max_identifier
    → c < max_identifier
    → k < max_identifier
    → distance a b < distance a c
    → between a k c true ≡ (if between a k b true then true else between b k c true)
unfolding between distance
between_union a b c k ha hb hc hk o = ground arith

pub hash-lt : (xxh3 : Bytes → ℕ) (b : Bytes) → hash xxh3 b < max_identifier
unfolding hash
hash-lt xxh3 b = omega arith

-- The sum is the mathematical one on the circle: the split of the remainders loses nothing, and
-- the 64-bit addition does not wrap.
pub modulo_sum_lem : (x y : ℕ) → modulo_sum x y ≡ (x + y) % max_identifier
unfolding modulo_sum
modulo_sum_lem x y = omega arith

-- From an identifier on the circle, adding a positive number of steps, at most a full turn,
-- walks that far clockwise.
distance-modulo_sum :
    (a n : ℕ) → a < max_identifier → 0 < n → n ≤ max_identifier → distance a (modulo_sum a n) ≡ n
unfolding distance modulo_sum
distance-modulo_sum a n h p q = ground arith
