-- ===== src/Examples/Circle.antt =====
-- The identifier arithmetic, the state word and the lease tokens on concrete numbers.
use specter.Prelude.{
  nat_eq, ◌+◌, ◌^◌, ℕ, ◌<◌, ◌≤◌, ◌≡◌, ◌⊎◌, refl, true, false, Option, none, some, List, [], ◌∷◌,
  leb, ltb, if◌then◌else◌, arith,
}
use specter.Prelude.Int.{pos}
use specter.VNode.{VNode}
use specter.Ring.{between, distance}
use specter.Ring.Distance.{between-distance}
use specter.Ring.SuccList.{make_succ_list_by_id, IsSuccList, by_id-IsSuccList}
use specter.Errors.{ok}
use specter.Kv.Lease.{max_int64, second, next}
use specter.Kv.Lease.Bounds.{next_bounds}
use specter.Chord.NodeState.{
  NodeState, State, active, leaving, transferring, to_code, new_node_state, get, transition,
  transitions, swap_from, set_state,
}
use specter.Chord.NodeState.Interference.{swap_from_no_aba}
use specter.Chord.NodeState.Setting.{IsRecorded, get-set_state, transition-IsRecorded}

between-distance_example : between 200 5 10 true ≡ (
    if true then leb (distance 200 5) (distance 200 10) else ltb (distance 200 5) (distance 200 10))
between-distance_example = between-distance 200 5 10 true (omega arith) (omega arith) (omega arith)

abbrev peer : ℕ → VNode
peer i = record { handle = i; id = i; address = i ∷ [] }

abbrev offered : List (Option VNode)
offered = some (peer 20) ∷ none ∷ some (peer 20) ∷ some (peer 30) ∷ []

by_id-IsSuccList_example :
    IsSuccList
      (λ u. u.id)
      (peer 10)
      (peer 20 ∷ peer 20 ∷ peer 30 ∷ [])
      4
      (make_succ_list_by_id (peer 10) offered 4)
by_id-IsSuccList_example = by_id-IsSuccList (peer 10) offered 4 (omega arith)

granted : next (pos 1000) (pos 2000000000) 0 ≡ ok 2000001000
granted = unfold next in refl

next_bounds_example :
    (0 < 2000001000)
    × (2000001000 ≤ max_int64)
    × (second ≤ 2000000000)
    × (1000 + 2000000000 ≤ 2000001000)
    × ((2000001000 ≡ 1000 + 2000000000) ⊎ (2000001000 ≡ 0 + 1))
next_bounds_example = next_bounds 1000 2000000000 0 2000001000 (omega arith) granted

abbrev started : NodeState
started = new_node_state active

small_word : started.word < 2 ^ 64
small_word = unfold new_node_state in omega arith

abbrev there_and_back : List (State × State)
there_and_back = (active, leaving) ∷ (leaving, active) ∷ []

swap_from_no_aba_example :
    (transitions started there_and_back ≡ started)
    ⊎ (swap_from started.word (transitions started there_and_back) active transferring
        ≡ (transitions started there_and_back, (get started, false)))
swap_from_no_aba_example =
    swap_from_no_aba started there_and_back active transferring (unfold to_code in omega arith)
      small_word
      (
        (unfold to_code in (omega arith, omega arith)),
        ((unfold to_code in (omega arith, omega arith)), tt),
      )
      (unfold new_node_state in omega arith)

abbrev disturbed : List (List (State × State) × List (State × State))
disturbed = ([], (active, leaving) ∷ []) ∷ []

get-set_state_example : get (set_state started transferring disturbed) ≡ transferring
get-set_state_example =
    get-set_state started transferring disturbed (unfold to_code in omega arith) small_word
      ((tt, unfold to_code in (omega arith, tt)), tt)

started-IsRecorded : IsRecorded started
started-IsRecorded = record {
  numbered = unfold new_node_state in (refl, refl);
  latest = unfold new_node_state get in refl;
}

transition-IsRecorded_example : IsRecorded (transition started active leaving).0
transition-IsRecorded_example =
    transition-IsRecorded started active leaving (unfold to_code in omega arith)
      (unfold new_node_state in omega arith) started-IsRecorded
