-- ===== src/Chord/Node/Kv.antt =====
-- chord/local_kv.go: which store serves a key.
pub mod Ownership
use specter.Prelude.{
  ℕ, suc, ◌+◌, Bool, true, false, ◌&&◌, not, Option, none, some, List, [], ◌∷◌, Bytes,
  if◌then◌else◌, ◌==◌,
}
use specter.VNode.{VNode}
use specter.Ring.{between, hash}
use specter.Errors.{Error, Result, ok, err, chord, panics, node_gone, kv_stale_ownership, ErrorName}
use specter.Kv.Spec.{Transfer}
use specter.Chord.NodeState
use specter.Chord.NodeState.{State, state_beq, inactive, active, leaving, left}
use specter.Chord.Node.{LocalNode, Peers, Provider, KvCall, KvReply}
use specter.Chord.Node.Lookup.{find_successor}

-- The key by which a call is routed.
abbrev pub key_of : KvCall → Bytes
key_of (KvCall.put key value) = key
key_of (KvCall.get key) = key
key_of (KvCall.delete key) = key
key_of (KvCall.prefix_append prefix child) = prefix
key_of (KvCall.prefix_list prefix) = prefix
key_of (KvCall.prefix_contains prefix child) = prefix
key_of (KvCall.prefix_remove prefix child) = prefix
key_of (KvCall.acquire lease ttl) = lease
key_of (KvCall.renew lease ttl prev_token) = lease
key_of (KvCall.release lease token) = lease

-- kvTargetType, with the node that is called.
pub data Target : Type 0 where
  replication local : Target
  remote surrogate : VNode → Target

-- `errors` of FindSuccessor as the middleware passes them on.
abbrev pub lookup_error : Error → Error
lookup_error (chord node_gone) = chord kv_stale_ownership
lookup_error e = e

module _ {S : Type 0} where
  -- n.kvStaleCount.Inc() and ErrKVStaleOwnership
  stale : LocalNode S → LocalNode S × Result Target
  stale n = (record n { kv_stale_count = n.kv_stale_count + 1 }, err (chord kv_stale_ownership))

  -- `n.surrogate != nil && Between(n.ID(), id, n.surrogate.Identity().GetId(), true)`
  unfoldable pub surrogate_for : LocalNode S → ℕ → Option VNode
  surrogate_for n id = elim n.surrogate [
    | none ↦ none
    | some v ↦ if between n.self.id id v.id true then some v else none
  ]

  -- `n.predecessor != nil && !Between(n.predecessor.ID(), id, n.ID(), true)`
  unfoldable pub out_of_range : LocalNode S → ℕ → Bool
  out_of_range n id = elim n.predecessor [
    | none ↦ false
    | some p ↦ not (between p.id id n.self.id true)
  ]

  -- The part of kvMiddleware under the locks.
  own_target : LocalNode S → ℕ → LocalNode S × Result Target
  unfolding stale
  own_target n id =
      if state_beq (NodeState.get n.state) active
      then elim (surrogate_for n id) [
        | some v ↦ (record n { kv_stale_count = n.kv_stale_count + 1 }, ok (surrogate v))
        | none ↦ if out_of_range n id then stale n else (n, ok local)
      ]
      else stale n

  target_from : LocalNode S → ℕ → Result (Option VNode) → LocalNode S × Result Target
  unfolding own_target
  target_from n id (err e) = (n, err (lookup_error e))
  target_from n id (ok none) = (n, err panics)
  target_from n id (ok (some succ)) =
      if succ.id == n.self.id then own_target n id else (n, ok (remote succ))

  -- kvMiddleware, up to the call of the handler.
  unfoldable pub kv_target : Peers → Bool → ℕ → LocalNode S → LocalNode S × Result Target
  unfolding target_from
  kv_target peers is_replication id n =
      if is_replication then (n, ok replication) else target_from n id (find_successor peers n id)

  call_local : Provider S → KvCall → LocalNode S → LocalNode S × Result KvReply
  call_local p c n = let (kv, r) = p.call c n.kv in (record n { kv = kv }, r)

  -- The handler that each method gives to kvMiddleware: the same method at the target.
  unfoldable pub handle :
      Provider S → Peers → KvCall → LocalNode S × Result Target → LocalNode S × Result KvReply
  unfolding call_local
  handle p peers c (n, err e) = (n, err e)
  handle p peers c (n, ok replication) = call_local p c n
  handle p peers c (n, ok local) = call_local p c n
  handle p peers c (n, ok (remote v)) = (n, peers.kv v c)
  handle p peers c (n, ok (surrogate v)) = (n, peers.kv v c)

  -- Put, Get, Delete, PrefixAppend, PrefixList, PrefixContains, PrefixRemove, Acquire, Renew and
  -- Release of a node.
  unfoldable pub kv_call :
      (Bytes → ℕ) → Provider S → Peers → Bool → KvCall → LocalNode S → LocalNode S × Result KvReply
  kv_call xxh3 p peers is_replication c n =
      handle p peers c (kv_target peers is_replication (hash xxh3 (key_of c)) n)

  import_in :
      State → Provider S → List Bytes → List Transfer → LocalNode S → LocalNode S × Option Error
  import_in inactive p keys values n = (n, some (chord node_gone))
  import_in leaving p keys values n = (n, some (chord node_gone))
  import_in left p keys values n = (n, some (chord node_gone))
  import_in _ p keys values n = let (kv, e) = p.import keys values n.kv in (record n { kv = kv }, e)

  -- Import
  unfoldable pub import :
      Provider S → List Bytes → List Transfer → LocalNode S → LocalNode S × Option Error
  unfolding import_in
  import p keys values n = import_in (NodeState.get n.state) p keys values n
