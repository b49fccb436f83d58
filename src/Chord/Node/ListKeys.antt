-- ===== src/Chord/Node/ListKeys.antt =====
-- chord/local_kv.go: ListKeys, which a node answers for itself or by a walk around the ring.
use specter.Prelude.{
  ℕ, zero, suc, ◌+◌, Option, none, some, List, [], ◌∷◌, ◌++◌, Bytes, if◌then◌else◌, ◌==◌, nat_eq,
}
use specter.VNode.{VNode}
use specter.Ring.{modulo_sum}
use specter.Ring.SuccList.{contains}
use specter.Errors.{Result, ok, err, ◌>>=◌, chord, plain, node_no_successor, kv_stale_ownership}
use specter.Kv.Memory.Keys.{KeyComposite}
use specter.Chord.NodeState
use specter.Chord.NodeState.{active, state_beq}
use specter.Chord.Node.{LocalNode, Peers}
use specter.Chord.Node.Lookup.{find_successor}

abbrev Walk : Type 0
Walk = Option (Result (List VNode))

-- nodes = append(nodes, next)
append_node : VNode → Walk → Walk
append_node v (some (ok nodes)) = some (ok (v ∷ nodes))
append_node v (some (err e)) = some (err e)
append_node v none = none

-- One round of the walk, from what FindSuccessor returns.
visit : VNode → List ℕ → Result (Option VNode) → (VNode → Walk) → Walk
unfolding append_node
visit self seen (err e) rest = some (err e)
visit self seen (ok none) rest = some (err (chord node_no_successor))
visit self seen (ok (some next)) rest =
    if next.id == self.id
    then some (ok (self ∷ []))
    else if contains next.id seen
    then some (err (plain "ring is unstable"))
    else append_node next (rest next)

module _ {S : Type 0} where
  -- The walk; `none` means that the fuel ran out.
  walk : ℕ → Peers → LocalNode S → List ℕ → ℕ → Walk
  unfolding visit
  walk zero peers n seen last = none
  walk (suc fuel) peers n seen last =
      visit n.self seen (find_successor peers n (modulo_sum last 1))
        (λ next. walk fuel peers n (next.id ∷ seen) next.id)

  -- ListKeys with the direct target, over ListKeys of the store.
  list_direct :
      (Bytes → S → Result (List KeyComposite))
      → Bytes
      → LocalNode S
      → LocalNode S × Result (List KeyComposite)
  list_direct store_keys prefix n =
      if state_beq (NodeState.get n.state) active
      then (n, store_keys prefix n.kv)
      else (record n { kv_stale_count = n.kv_stale_count + 1 }, err (chord kv_stale_ownership))

-- The answers of the nodes, in the order in which they come; the first error ends the call.
gather : (VNode → Result (List KeyComposite)) → List VNode → Result (List KeyComposite)
gather list_at [] = ok []
gather list_at (v ∷ rest) =
    list_at v >>= λ found. gather list_at rest >>= λ others. ok (found ++ others)

gathered : (VNode → Result (List KeyComposite)) → Walk → Option (Result (List KeyComposite))
unfolding gather
gathered list_at none = none
gathered list_at (some (err e)) = some (err e)
gathered list_at (some (ok nodes)) = some (gather list_at nodes)

module _ {S : Type 0} where
  -- ListKeys with any other target.
  list_ring :
      ℕ
      → Peers
      → (VNode → Result (List KeyComposite))
      → LocalNode S
      → Option (Result (List KeyComposite))
  unfolding walk gathered
  list_ring fuel peers list_at n = gathered list_at (walk fuel peers n [] n.self.id)
