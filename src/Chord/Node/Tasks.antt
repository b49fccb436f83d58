-- ===== src/Chord/Node/Tasks.antt =====
-- chord/local_tasks.go: the periodic repair of the successor list, the fingers and the
-- predecessor.
pub mod Repair
use specter.Prelude.{
  ℕ, zero, suc, ◌-◌, ◌^◌, true, false, Option, none, some, List, [], ◌∷◌, map, if◌then◌else◌, ◌==◌,
}
use specter.VNode.{VNode, same_ref}
use specter.Ring.{between, modulo_sum, max_finger_entries, extended_successor_entries}
use specter.Ring.SuccList.{make_succ_list_by_id}
use specter.Errors.{Error, Result, ok, err, chord, plain, wrapped, node_no_successor}
use specter.Chord.NodeState
use specter.Chord.Node.{LocalNode, Peers, check_node_state}
use specter.Chord.Node.Lookup.{find_successor, get_successors}

-- hash: the third-party hash of the identifiers, as big-endian bytes.
abbrev pub ListHash : Type 0
ListHash = List ℕ → ℕ

ids : List VNode → List ℕ
ids = map (λ v. v.id)

-- The list through the closer node, if it answers.
unfoldable pub closer_list : List VNode → VNode → Result (List (Option VNode)) → List VNode
closer_list old v (err e) = old
closer_list old v (ok list) = make_succ_list_by_id v list extended_successor_entries

unfoldable pub first_of : Option (List VNode) → Option (List VNode) → Option (List VNode)
first_of (some list) later = some list
first_of none later = later

module _ {S : Type 0} where
  -- The list through `head`, or through the node that `head` has as its predecessor, if that one
  -- is closer and answers.
  unfoldable pub through_closer :
      Peers → LocalNode S → VNode → List VNode → Option VNode → List VNode
  through_closer peers n head old none = old
  through_closer peers n head old (some v) =
      if between n.self.id v.id head.id false
      then closer_list old v (peers.get_successors v)
      else old

  unfoldable pub through_head :
      Peers
      → LocalNode S
      → VNode
      → Result (Option VNode)
      → Result (List (Option VNode))
      → Option (List VNode)
  through_head peers n head (err e) list = none
  through_head peers n head (ok closer) (err e) = none
  through_head peers n head (ok closer) (ok list) = some (
      through_closer peers n head (make_succ_list_by_id head list extended_successor_entries)
        closer)

  -- The loop of stabilize; `none` if no successor answered.
  unfoldable pub live_list : Peers → LocalNode S → List VNode → Option (List VNode)
  live_list peers n [] = none
  live_list peers n (head ∷ rest) =
      first_of (through_head peers n head (peers.get_predecessor head) (peers.get_successors head))
        (live_list peers n rest)

  -- updateSuccessorsList, where the hash has changed.
  unfoldable pub update_successors : ListHash → List VNode → LocalNode S → LocalNode S
  unfolding ids
  update_successors hash list n =
      if n.succ_list_hash == hash (ids list)
      then n
      else record n { succ_list_hash = hash (ids list); successors = map some list }

  -- The end of stabilize: tell the new successor, unless the node may not.
  notify_successor : Peers → ℕ → LocalNode S → List VNode → LocalNode S × Option Error
  notify_successor peers now n [] = (n, none)
  notify_successor peers now n (succ ∷ rest) =
      elim (check_node_state true (NodeState.get n.state)) [
        | some e ↦ (n, none)
        | none ↦ elim (peers.notify succ) [
          | some e ↦ (n, some (wrapped "notifying successor" e))
          | none ↦ (record n { last_stabilized = now }, none)
        ]
      ]

  -- stabilize
  unfoldable pub stabilize : Peers → ListHash → ℕ → LocalNode S → LocalNode S × Option Error
  unfolding notify_successor
  stabilize peers hash now n = elim (live_list peers n (get_successors n)) [
    | none ↦ (n, some (chord node_no_successor))
    | some list ↦ notify_successor peers now (update_successors hash list n) list
  ]

  set_finger : ℕ → VNode → LocalNode S → LocalNode S
  set_finger k f n = record n { fingers = λ j. if j == k then some f else n.fingers j }

  replace_finger : ℕ → VNode → Option VNode → LocalNode S → LocalNode S
  unfolding set_finger
  replace_finger k f none n = set_finger k f n
  replace_finger k f (some old) n = if old.id == f.id then n else set_finger k f n

  -- fixK
  unfoldable pub fix_k : Peers → ℕ → LocalNode S → LocalNode S × Option Error
  unfolding replace_finger
  fix_k peers k n = elim (find_successor peers n (modulo_sum n.self.id (2 ^ (k - 1)))) [
    | err e ↦ (n, some e)
    | ok none ↦ (n, some (plain "no successor found"))
    | ok (some f) ↦ (replace_finger k f (n.fingers k) n, none)
  ]

  -- fixFinger, from the entry after `done` on, for `rounds` entries.
  fix_from : Peers → ℕ → ℕ → LocalNode S → LocalNode S
  fix_from peers zero done n = n
  fix_from peers (suc rounds) done n = fix_from peers rounds (suc done) (fix_k peers (suc done) n).0

  unfoldable pub fix_finger : Peers → LocalNode S → LocalNode S
  unfolding fix_from
  fix_finger peers n = fix_from peers max_finger_entries 0 n

  forget_predecessor : VNode → LocalNode S → LocalNode S
  forget_predecessor pre n =
      if same_ref n.predecessor (some pre) then record n { predecessor = none } else n

  check_ping : VNode → Option Error → LocalNode S → LocalNode S × Option Error
  unfolding forget_predecessor
  check_ping pre none n = (n, none)
  check_ping pre (some e) n = (forget_predecessor pre n, some e)

  -- checkPredecessor, where `others` is what other goroutines do to the node during the ping.
  unfoldable pub check_predecessor :
      Peers → (LocalNode S → LocalNode S) → LocalNode S → LocalNode S × Option Error
  unfolding check_ping
  check_predecessor peers others n = elim n.predecessor [
    | none ↦ (n, none)
    | some pre ↦
        if pre.id == n.self.id then (n, none) else check_ping pre (peers.ping pre) (others n)
  ]

  -- startTasks, up to the start of the periodic tasks.
  unfoldable pub start_tasks : Peers → ListHash → ℕ → LocalNode S → LocalNode S
  start_tasks peers hash now n = fix_finger peers (stabilize peers hash now n).0
