-- ===== src/Chord/NodeState.antt =====
-- chord/node_state.go: the state of a node and a change counter in one 64-bit word, changed by
-- compare-and-swap only, with the history of its changes.
pub mod Interference
pub mod Setting
use specter.Prelude.{
  ℕ, zero, suc, ◌+◌, ◌*◌, ◌/◌, ◌%◌, ◌^◌, Bool, true, false, List, [], ◌∷◌, map, ◌==◌, if◌then◌else◌,
}

-- spec/chord/state.go: a uint64 with six named values.
pub data State : Type 0 where
  inactive joining active transferring leaving left : State
  other : ℕ → State

unfoldable pub to_code : State → ℕ
to_code inactive = 0
to_code joining = 1
to_code active = 2
to_code transferring = 3
to_code leaving = 4
to_code left = 5
to_code (other n) = suc (suc (suc (suc (suc (suc n)))))

unfoldable pub of_code : ℕ → State
of_code zero = inactive
of_code (suc zero) = joining
of_code (suc (suc zero)) = active
of_code (suc (suc (suc zero))) = transferring
of_code (suc (suc (suc (suc zero)))) = leaving
of_code (suc (suc (suc (suc (suc zero))))) = left
of_code (suc (suc (suc (suc (suc (suc n)))))) = other n

unfoldable pub state_beq : State → State → Bool
unfolding to_code
state_beq a b = to_code a == to_code b

-- `history` is the map's stores, the newest first: a new key is above all keys so far.
pub record NodeState : Type 0 where
  pub word : ℕ
  pub stores : List (ℕ × State)

-- (index << 4) | state: the shifted index ends in four zero bits, and each named state has four
-- bits at most, so `|` is a sum.
unfoldable pub pack : ℕ → State → ℕ
pack index state = index * 16 % 2 ^ 64 + to_code state

-- newNodeState
unfoldable pub new_node_state : State → NodeState
unfolding pack to_code
new_node_state initial = record { word = pack 0 initial; stores = (0, initial) ∷ [] }

-- Get
unfoldable pub get : NodeState → State
unfolding of_code
get s = of_code (s.word % 16)

-- Transition, once its Load has returned `curr`: the compare-and-swap and what follows it.
unfoldable pub swap_from : ℕ → NodeState → State → State → NodeState × (State × Bool)
unfolding pack of_code to_code
swap_from curr s exp nxt =
    let prev = pack (curr / 16) exp in
    let next_index = curr / 16 + 1 in
    if s.word == prev
    then (record { word = pack next_index nxt; stores = (next_index, nxt) ∷ s.stores }, (nxt, true))
    else (s, (of_code (curr % 16), false))

-- Transition with nothing between its two steps.
unfoldable pub transition : NodeState → State → State → NodeState × (State × Bool)
unfolding swap_from
transition s exp nxt = swap_from s.word s exp nxt

-- The Transition calls of other goroutines, one after the other.
unfoldable pub transitions : NodeState → List (State × State) → NodeState
transitions s [] = s
transitions s ((exp, nxt) ∷ rest) = transitions (transition s exp nxt).0 rest

-- Set. The list has, for each failing round, the calls of others between the round's Get and its
-- Load, and between its Load and its CompareAndSwap; the last round is undisturbed.
unfoldable pub set_state :
    NodeState → State → List (List (State × State) × List (State × State)) → NodeState
set_state s val [] = (transition s (get s) val).0
set_state s val ((before, between_) ∷ rest) =
    let s' = transitions s before in
    let (s'', (_, done)) = swap_from s'.word (transitions s' between_) (get s) val in
    let again = set_state s'' val rest in if done then s'' else again

-- Set without contention.
unfoldable pub set : NodeState → State → NodeState
unfolding set_state
set s val = set_state s val []

oldest_first : List (ℕ × State) → List State → List State
oldest_first [] out = out
oldest_first ((index, state) ∷ rest) out = oldest_first rest (state ∷ out)

-- History: the values of the map in the order of their keys.
unfoldable pub history : NodeState → List State
unfolding oldest_first
history s = oldest_first s.stores []
