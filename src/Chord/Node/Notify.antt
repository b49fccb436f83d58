-- ===== src/Chord/Node/Notify.antt =====
-- chord/local_chord.go: Notify, in the parts between which other goroutines run: the candidate is
-- chosen from a snapshot, and stored only where the pointers are still those of the snapshot.
pub mod Closer
use specter.Prelude.{ℕ, Bool, true, false, Option, none, some, if◌then◌else◌, ◌==◌}
use specter.VNode.{VNode, same_ref}
use specter.Ring.{between}
use specter.Errors.{Error}
use specter.Chord.NodeState
use specter.Chord.Node.{LocalNode, Peers, check_node_state}

module _ {S : Type 0} where
  closer : LocalNode S → VNode → VNode → Option Error → Option VNode
  closer n old new none = if between old.id new.id n.self.id false then some new else none
  closer n old new (some dead) = some new

  -- The candidate for the predecessor, from the predecessor in the snapshot.
  unfoldable pub candidate : Peers → LocalNode S → Option VNode → VNode → Option VNode
  unfolding closer
  candidate peers n none new = some new
  candidate peers n (some old) new =
      if old.id == new.id then none else closer n old new (peers.ping old)

  store_surrogate : Option VNode → VNode → LocalNode S → LocalNode S
  store_surrogate snapshot v n =
      if same_ref snapshot n.surrogate
      then record n { surrogate = if v.id == n.self.id then none else some v }
      else n

  store_predecessor : Option VNode → VNode → LocalNode S → LocalNode S
  store_predecessor snapshot v n =
      if same_ref snapshot n.predecessor then record n { predecessor = some v } else n

  -- The deferred part: `n` is the node as other goroutines have left it by then.
  unfoldable pub commit : Option VNode → Option VNode → Option VNode → LocalNode S → LocalNode S
  unfolding store_surrogate store_predecessor
  commit surrogate predecessor none n = n
  commit surrogate predecessor (some v) n =
      store_predecessor predecessor v (store_surrogate surrogate v n)

  unfoldable pub notified :
      Peers
      → (LocalNode S → LocalNode S)
      → VNode
      → LocalNode S
      → Option Error
      → LocalNode S × Option Error
  notified peers others new n (some e) = (n, some e)
  notified peers others new n none =
      (commit n.surrogate n.predecessor (candidate peers n n.predecessor new) (others n), none)

  -- Notify, where `others` is what other goroutines do to the node between the two parts.
  unfoldable pub notify :
      Peers → (LocalNode S → LocalNode S) → VNode → LocalNode S → LocalNode S × Option Error
  notify peers others new n =
      notified peers others new n (check_node_state false (NodeState.get n.state))
