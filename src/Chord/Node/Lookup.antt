-- ===== src/Chord/Node/Lookup.antt =====
-- chord/local_chord.go: FindSuccessor and the finger table.
use specter.Prelude.{
  ℕ, zero, suc, Bool, true, false, Option, none, some, List, if◌then◌else◌, ◌==◌, somes,
}
use specter.VNode.{VNode}
use specter.Ring.{between, max_finger_entries}
use specter.Errors.{Error, Result, ok, err, chord, node_no_successor, check, ◌>>◌}
use specter.Chord.NodeState.{get}
use specter.Chord.Node.{LocalNode, Peers, check_node_state, get_successor}

-- closestPrecedingNode's test of one entry: the entry if it precedes the key, or else what the
-- lower entries give.
unfoldable pub finger_step : ℕ → ℕ → Option VNode → Option VNode → Option VNode
finger_step id key none rest = rest
finger_step id key (some f) rest = if between id f.id key false then some f else rest

-- fingerRangeView with that test, from the entry `k` down to the first.
unfoldable pub finger_scan : ℕ → ℕ → (ℕ → Option VNode) → ℕ → Option VNode
finger_scan id key fingers zero = none
finger_scan id key fingers (suc k) =
    finger_step id key (fingers (suc k)) (finger_scan id key fingers k)

-- What FindSuccessor does with a key: it answers, or asks the next node.
pub data Decision : Type 0 where
  answer : Result (Option VNode) → Decision
  forward : VNode → Decision

module _ {S : Type 0} where
  -- closestPrecedingNode: the node itself if no finger precedes the key.
  unfoldable pub closest_preceding_node : LocalNode S → ℕ → VNode
  closest_preceding_node n key = elim (finger_scan n.self.id key n.fingers max_finger_entries) [
    | none ↦ n.self
    | some f ↦ f
  ]

  -- `pre != nil && Between(pre.ID(), key, n.ID(), true)`
  unfoldable pub owns : LocalNode S → ℕ → Bool
  owns n key = elim n.predecessor [ none ↦ false | some pre ↦ between pre.id key n.self.id true ]

  -- The next hop; the successor where the finger table has nothing closer.
  unfoldable pub next_hop : LocalNode S → ℕ → VNode → VNode
  next_hop n key succ =
      let closest = closest_preceding_node n key in
      if closest.handle == n.self.handle then succ else closest

  decide_successor : LocalNode S → ℕ → Option VNode → Decision
  decide_successor n key none = answer (err (chord node_no_successor))
  decide_successor n key (some succ) =
      if between n.self.id key succ.id true
      then answer (ok (some succ))
      else forward (next_hop n key succ)

  decide_checked : LocalNode S → ℕ → Option Error → Decision
  decide_checked n key (some e) = answer (err e)
  decide_checked n key none =
      if owns n key then answer (ok (some n.self)) else decide_successor n key (get_successor n)

  unfoldable pub decide : LocalNode S → ℕ → Decision
  unfolding decide_checked decide_successor
  decide n key = decide_checked n key (check_node_state false (get n.state))

  -- FindSuccessor
  unfoldable pub find_successor : Peers → LocalNode S → ℕ → Result (Option VNode)
  find_successor peers n key = elim (decide n key) [
    | answer r ↦ r
    | forward v ↦ peers.find_successor v key
  ]

  -- getSuccessors
  unfoldable pub get_successors : LocalNode S → List VNode
  get_successors n = somes n.successors

  -- GetSuccessors
  unfoldable pub get_successors_checked : LocalNode S → Result (List VNode)
  get_successors_checked n = do check (check_node_state false (get n.state)); ok (get_successors n)

  -- GetPredecessor
  unfoldable pub get_predecessor_checked : LocalNode S → Result (Option VNode)
  get_predecessor_checked n = do check (check_node_state false (get n.state)); ok n.predecessor
