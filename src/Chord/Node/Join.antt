-- ===== src/Chord/Node/Join.antt =====
-- chord/local_membership.go and chord/local_chord.go: a node creates a ring, joins one, and takes
-- in a joiner.
pub mod Outcomes
use Prim.Native.String.{String}
use specter.Prelude.{
  ℕ, Bool, true, false, not, Option, none, some, List, [], ◌∷◌, map, Bytes, if◌then◌else◌, ◌==◌,
  leb, ◌&&◌,
}
use specter.VNode.{VNode}
use specter.Ring.{between, extended_successor_entries, max_finger_entries}
use specter.Ring.SuccList.{make_succ_list_by_id}
use specter.Errors.{
  Error, Result, ok, err, chord, plain, panics, join_invalid_state, join_invalid_successor,
  join_transfer_failure, duplicate_joiner_id, error_is_retryable,
}
use specter.Kv.Spec.{Transfer}
use specter.Chord.NodeState
use specter.Chord.NodeState.{NodeState, State, inactive, joining, active, transferring, transition}
use specter.Chord.Node.{LocalNode, Peers, Provider, Call, Run}
use specter.Chord.Node.Lookup.{find_successor, get_successors}
use specter.Chord.Node.Tasks.{ListHash, start_tasks, update_successors}

-- executeJoin: the attempts go on while the error may be retried, and the last error counts. An
-- exhausted list stands for the end of the attempts.
unfoldable pub execute_join :
    List (Result (Option VNode × List VNode)) → Result (Option VNode × List VNode)
execute_join [] = err (plain "All attempts fail")
execute_join (ok r ∷ rest) = ok r
execute_join (err e ∷ []) = err e
execute_join (err e ∷ (next ∷ rest)) =
    let later = execute_join (next ∷ rest) in if error_is_retryable e then later else err e

module _ {S : Type 0} where
  abbrev pub set_state : State → LocalNode S → LocalNode S
  set_state s n = record n { state = NodeState.set n.state s }

  unfoldable pub remove_sent : Provider S → List Bytes → LocalNode S → LocalNode S
  remove_sent p keys n = record n { kv = (p.remove_keys keys n.kv).0 }

  -- The keys are exported, imported by the other node, and removed here; a failure to remove them
  -- is logged only.
  unfoldable pub send_keys :
      Provider S → Peers → VNode → List Bytes → LocalNode S → LocalNode S × Option Error
  unfolding remove_sent
  send_keys p peers to [] n = (n, none)
  send_keys p peers to (key ∷ keys) n = elim (p.export (key ∷ keys) n.kv) [
    | err e ↦ (n, some e)
    | ok values ↦ elim (peers.import to (key ∷ keys) values) [
      | some e ↦ (n, some e)
      | none ↦ (remove_sent p (key ∷ keys) n, none)
    ]
  ]

  low_end : LocalNode S → Option VNode → VNode
  low_end n none = n.self
  low_end n (some prev) = prev

  -- The keys that RangeKeys gives are sent.
  unfoldable pub send_ranged :
      Provider S → Peers → VNode → Result (List Bytes) → LocalNode S → LocalNode S × Option Error
  send_ranged p peers to (err e) n = (n, some e)
  send_ranged p peers to (ok keys) n = send_keys p peers to keys n

  -- transferKeysUpward
  unfoldable pub transfer_keys_upward :
      Provider S → Peers → Option VNode → VNode → LocalNode S → LocalNode S × Option Error
  unfolding low_end
  transfer_keys_upward p peers prev new n =
      if new.id == n.self.id
      then (n, none)
      else if between (low_end n prev).id new.id n.self.id false
      then send_ranged p peers new (p.range_keys (low_end n prev).id new.id n.kv) n
      else (n, none)

  -- The end of RequestToJoin: the pointers move if the keys did, or else the state goes back.
  admit :
      VNode → VNode → LocalNode S × Option Error → LocalNode S × Result (Option VNode × List VNode)
  admit prev joiner (n, some e) = (set_state active n, err (chord join_transfer_failure))
  admit prev joiner (n, none) = (
    record n { surrogate = some joiner; predecessor = some joiner },
    ok (
      some prev,
      make_succ_list_by_id n.self (map some (get_successors n)) extended_successor_entries,
    ),
  )

  -- RequestToJoin with the node Transferring and its predecessor at hand.
  join_behind :
      Provider S
      → Peers
      → VNode
      → Option VNode
      → LocalNode S
      → LocalNode S × Result (Option VNode × List VNode)
  unfolding admit
  join_behind p peers joiner none n = (set_state active n, err (chord join_invalid_state))
  join_behind p peers joiner (some prev) n =
      if between prev.id joiner.id n.self.id false
      then admit prev joiner (transfer_keys_upward p peers (some prev) joiner n)
      else (set_state active n, err (chord join_invalid_successor))

  -- RequestToJoin at the node that is the joiner's successor.
  unfoldable pub join_here :
      Provider S → Peers → VNode → LocalNode S → LocalNode S × Result (Option VNode × List VNode)
  unfolding join_behind
  join_here p peers joiner n =
      let (state, (curr, moved)) = transition n.state active transferring in
      if moved
      then join_behind p peers joiner n.predecessor (record n { state = state })
      else (n, err (chord join_invalid_state))

  join_at :
      Provider S
      → Peers
      → VNode
      → Result (Option VNode)
      → LocalNode S
      → LocalNode S × Result (Option VNode × List VNode)
  join_at p peers joiner (err e) n = (n, err e)
  join_at p peers joiner (ok none) n = (n, err panics)
  join_at p peers joiner (ok (some succ)) n =
      if succ.id == joiner.id
      then (n, err (chord duplicate_joiner_id))
      else if succ.id == n.self.id
      then join_here p peers joiner n
      else (n, peers.request_to_join succ joiner)

  -- RequestToJoin
  unfoldable pub request_to_join :
      Provider S → Peers → VNode → LocalNode S → LocalNode S × Result (Option VNode × List VNode)
  unfolding join_at
  request_to_join p peers joiner n = join_at p peers joiner (find_successor peers n joiner.id) n

  -- The release of the membership lock, in FinishJoin and FinishLeave.
  unfoldable pub release_lock : Error → LocalNode S → LocalNode S × Option Error
  release_lock failure n =
      let (state, (curr, moved)) = transition n.state transferring active in
      if moved then (record n { state = state }, none) else (n, some failure)

  -- FinishJoin; stabilize and fixFinger are start_tasks.
  unfoldable pub finish_join :
      Peers → ListHash → ℕ → Bool → Bool → LocalNode S → LocalNode S × Option Error
  finish_join peers hash now stabilizes releases n =
      let n' = if stabilizes then start_tasks peers hash now n else n in
      if releases then release_lock (chord join_invalid_state) n' else (n', none)

  created : Peers → ListHash → ℕ → List VNode → LocalNode S → LocalNode S
  created peers hash now list n = set_state active (
      start_tasks peers hash now (record n {
        succ_list_hash = hash (map (λ v. v.id) list);
        successors = map some list;
        fingers = λ k. if leb 1 k && leb k max_finger_entries then some n.self else n.fingers k;
      }))

  -- Create
  unfoldable pub create : Peers → ListHash → ℕ → LocalNode S → LocalNode S × Option Error
  unfolding created
  create peers hash now n =
      let (state, (curr, moved)) = transition n.state inactive joining in
      if moved
      then (
        created peers hash now (make_succ_list_by_id n.self [] extended_successor_entries)
            (record n { state = state }),
        none,
      )
      else (n, some (plain "node is not Inactive"))

  -- Join once a node has answered: pointers, first repair, and the calls that let the neighbours
  -- go on. A nil predecessor or an empty list stops the goroutine.
  joined :
      Peers → ListHash → ℕ → Result (Option VNode × List VNode) → LocalNode S → Run S (Unit {0})
  joined peers hash now (err e) n = record {
    node = set_state inactive n;
    calls = [];
    result = err e;
  }
  joined peers hash now (ok (none, list)) n = record { node = n; calls = []; result = err panics }
  joined peers hash now (ok (some pre, [])) n = record { node = n; calls = []; result = err panics }
  joined peers hash now (ok (some pre, succ ∷ rest)) n = record {
    node = set_state active (
        start_tasks peers hash now (record n {
          succ_list_hash = hash (map (λ v. v.id) (succ ∷ rest));
          successors = map some (succ ∷ rest);
          predecessor = some pre;
        }));
    calls = Call.finish_join pre true false ∷ Call.finish_join succ false true ∷ [];
    result = ok tt;
  }

  -- Join, where the list has what the peer answers at each attempt.
  unfoldable pub join :
      Peers
      → ListHash
      → ℕ
      → List (Result (Option VNode × List VNode))
      → LocalNode S
      → Run S (Unit {0})
  unfolding joined
  join peers hash now answers n =
      let (state, (curr, moved)) = transition n.state inactive joining in
      if moved
      then joined peers hash now (execute_join answers) (record n { state = state })
      else record { node = n; calls = []; result = err (plain "node is not Inactive") }
