-- ===== src/Chord/Node.antt =====
-- chord/local.go, and what the other files of chord/ share: the state of a node, the store behind
-- it, and what other nodes answer to its calls.
pub mod Lookup
pub mod Kv
pub mod Notify
pub mod Join
pub mod Leave
pub mod Tasks
pub mod SameButKv
pub mod ListKeys
use specter.Prelude.{ℕ, Bool, true, false, Option, none, some, List, [], ◌∷◌, Bytes, if◌then◌else◌}
use specter.Prelude.Int.{ℤ}
use specter.VNode.{VNode}
use specter.Errors.{Error, Result, chord, node_gone, node_not_started}
use specter.Kv.Spec.{Transfer}
use specter.Chord.NodeState
use specter.Chord.NodeState.{NodeState, State, inactive, leaving, left}

-- A call of one of the ten methods of chord.KV that a node routes by the hash of a key.
pub data KvCall : Type 0 where
  put : Bytes → Option Bytes → KvCall
  get delete prefix_list : Bytes → KvCall
  prefix_append prefix_contains prefix_remove : Bytes → Bytes → KvCall
  acquire : Bytes → ℤ → KvCall
  renew : Bytes → ℤ → ℕ → KvCall
  release : Bytes → ℕ → KvCall

pub data KvReply : Type 0 where
  nothing : KvReply
  value : Option Bytes → KvReply
  children : List Bytes → KvReply
  found : Bool → KvReply
  token : ℕ → KvReply

-- chord.KVProvider: a routed call, and what a node hands its keys over by.
pub record Provider (S : Type 0) : Type 0 where
  pub call : KvCall → S → S × Result KvReply
  pub range_keys : ℕ → ℕ → S → Result (List Bytes)
  pub export : List Bytes → S → Result (List Transfer)
  pub import : List Bytes → List Transfer → S → S × Option Error
  pub remove_keys : List Bytes → S → S × Option Error

-- LocalNode. `self` is the node as a VNode; fingers[0] is not used.
pub record LocalNode (S : Type 0) : Type 0 where
  pub self : VNode
  pub state : NodeState
  pub predecessor : Option VNode
  pub surrogate : Option VNode
  pub successors : List (Option VNode)
  pub succ_list_hash : ℕ
  pub fingers : ℕ → Option VNode
  pub kv : S
  pub kv_stale_count : ℕ
  pub last_stabilized : ℕ

-- What the other nodes answer while one operation runs.
pub record Peers : Type 0 where
  pub kv : VNode → KvCall → Result KvReply
  pub ping : VNode → Option Error
  pub notify : VNode → Option Error
  pub find_successor : VNode → ℕ → Result (Option VNode)
  pub get_successors : VNode → Result (List (Option VNode))
  pub get_predecessor : VNode → Result (Option VNode)
  pub request_to_join : VNode → VNode → Result (Option VNode × List VNode)
  pub finish_join : VNode → Bool → Bool → Option Error
  pub request_to_leave : VNode → VNode → Option Error
  pub finish_leave : VNode → Bool → Bool → Option Error
  pub import : VNode → List Bytes → List Transfer → Option Error

-- A call of another node that moves its state.
pub data Call : Type 0 where
  finish_join finish_leave : VNode → Bool → Bool → Call
  request_leave : VNode → Call

-- The end of an operation: the node, its calls in their order, and its result.
pub record Run (S A : Type 0) : Type 0 where
  pub node : LocalNode S
  pub calls : List Call
  pub result : Result A

-- checkNodeState
unfoldable pub check_node_state : Bool → State → Option Error
check_node_state leaving_is_error inactive = some (chord node_not_started)
check_node_state leaving_is_error leaving =
    if leaving_is_error then some (chord node_gone) else none
check_node_state leaving_is_error left = some (chord node_gone)
check_node_state leaving_is_error _ = none

module _ {S : Type 0} where
  -- Ping
  unfoldable pub ping : LocalNode S → Option Error
  unfolding check_node_state NodeState.get
  ping n = check_node_state true (NodeState.get n.state)

  -- getSuccessor
  unfoldable pub get_successor : LocalNode S → Option VNode
  get_successor n = elim n.successors [ [] ↦ none | s ∷ rest ↦ s ]
