-- ===== src/Chord/Node/Leave/Locks.antt =====
-- chord/local_membership.go: the membership locks that executeLeave takes and gives back.
use specter.Prelude.{◌≡◌, ◌≢◌, false, false, none, some, List, [], if◌then◌else◌, ◌==◌}
use specter.VNode.{VNode}
use specter.Errors.{Error, ok, err, plain, chord, node_no_successor, leave_invalid_state}
use specter.Chord.NodeState
use specter.Chord.NodeState.{NodeState, State, active, leaving}
use specter.Chord.Node.{LocalNode, Peers, Provider, Call, Run, get_successor}
use specter.Chord.Node.Leave.{Neighbours}
use specter.Chord.Node.Leave.Granted.{free, held, lock_of}
use specter.Chord.Node.Leave.Transfers.{Sent, NotSent}

module _ {S : Type 0} where
  -- Why an attempt to leave fails: a pointer is missing, the node is not Active, or its successor
  -- refuses the lock or, with both locks held, the keys.
  pub data Stays (p : Provider S) (peers : Peers) (n : LocalNode S) : Error → Type 0 where
    no_predecessor : n.predecessor ≡ none → Stays p peers n (plain "retrying on nil predecessor")
    no_successor : get_successor n ≡ none → Stays p peers n (chord node_no_successor)
    not_active : NodeState.get n.state ≢ active → Stays p peers n (chord leave_invalid_state)
    refused_lock :
        {succ : VNode} {e : Error}
        → get_successor n ≡ some succ
        → peers.request_to_leave succ n.self ≡ some e
        → Stays p peers n e
    refused_keys :
        {succ : VNode} {e : Error}
        → get_successor n ≡ some succ
        → peers.request_to_leave succ n.self ≡ none
        → NotSent p peers succ n.kv e
        → Stays p peers n e

  -- The outcomes of executeLeave. A failure leaves the state as it was, and of no node holds a lock
  -- that it has not asked that node to take back; a node that is alone changes nothing; and a success
  -- holds its own lock and that of its successor and of no other node, has sent its keys to the
  -- successor, and answers no key itself.
  pub data Departed (p : Provider S) (peers : Peers) (n : LocalNode S)
      : Run S Neighbours → Type 0 where
    failed :
        {node : LocalNode S} {calls : List Call} {e : Error}
        → Stays p peers n e
        → NodeState.get node.state ≡ NodeState.get n.state
        → ((v : VNode) → lock_of peers n.self v free calls ≢ held)
        → node.surrogate ≡ n.surrogate
        → node.kv ≡ n.kv
        → Departed p peers n (record { node = node; calls = calls; result = err e })
    alone :
        {pre succ : VNode}
        → n.predecessor ≡ some pre
        → get_successor n ≡ some succ
        → pre.id ≡ n.self.id
        → succ.id ≡ n.self.id
        → Departed p peers n (record { node = n; calls = []; result = ok (some pre, some succ) })
    locked :
        {node : LocalNode S} {calls : List Call} {pre succ : VNode}
        → n.predecessor ≡ some pre
        → get_successor n ≡ some succ
        → ¬ ((pre.id ≡ n.self.id) × (succ.id ≡ n.self.id))
        → NodeState.get n.state ≡ active
        → NodeState.get node.state ≡ leaving
        → ((v : VNode)
            → lock_of peers n.self v free calls ≡ (if succ.handle == v.handle then held else free))
        → Sent p peers succ n.kv node.kv
        → node.surrogate ≡ some n.self
        → Departed p peers n
            (record { node = node; calls = calls; result = ok (some pre, some succ) })
