-- ===== src/Chord/Node/Leave.antt =====
-- chord/local_membership.go: a node leaves its ring under the locks of itself and its successor.
pub mod Granted
pub mod Transfers
pub mod Locks
use Prim.Native.String.{String}
use specter.Prelude.{
  ℕ, Bool, true, false, Option, none, some, List, [], ◌∷◌, ◌++◌, Bytes, if◌then◌else◌, ◌==◌, ltb,
  ◌&&◌,
}
use specter.VNode.{VNode}
use specter.Errors.{
  Error, Result, ok, err, chord, plain, wrapped, node_no_successor, leave_invalid_state,
}
use specter.Chord.NodeState
use specter.Chord.NodeState.{State, active, transferring, leaving, left, inactive, transition}
use specter.Chord.Node.{
  LocalNode, Peers, Provider, Call, request_leave, finish_leave, Run, get_successor,
}
use specter.Chord.Node.Join.{set_state, send_ranged, release_lock}
use specter.Chord.Node.Tasks.{ListHash, start_tasks}

abbrev Neighbours : Type 0
Neighbours = Option VNode × Option VNode

unfoldable pub store_error : Option Error → Option Error
store_error none = none
store_error (some e) = some (wrapped "storing KV to successor" e)

module _ {S : Type 0} where
  -- transferKeysDownward: RangeKeys(0, 0) is the whole circle.
  unfoldable pub transfer_keys_downward :
      Provider S → Peers → VNode → LocalNode S → LocalNode S × Option Error
  unfolding store_error
  transfer_keys_downward p peers succ n =
      send_ranged p (record peers { import = λ to ks vs. store_error (peers.import to ks vs) }) succ
        (p.range_keys 0 0 n.kv) n

  -- executeLeave with both locks held, before and after the transfer.
  unfoldable pub locked_end :
      VNode → VNode → List Call → LocalNode S × Option Error → Run S Neighbours
  locked_end pre succ calls (n, some e) = record {
    node = set_state active n;
    calls = calls ++ finish_leave succ false true ∷ [];
    result = err e;
  }
  locked_end pre succ calls (n, none) = record {
    node = record n { surrogate = some n.self };
    calls = calls;
    result = ok (some pre, some succ);
  }

  unfoldable pub leave_locked :
      Provider S → Peers → VNode → VNode → List Call → LocalNode S → Run S Neighbours
  leave_locked p peers pre succ calls n =
      locked_end pre succ calls (transfer_keys_downward p peers succ n)

  -- The order of the locks for a node above its successor: the successor's first, which answers.
  unfoldable pub succ_answers :
      Provider S → Peers → VNode → VNode → LocalNode S → Option Error → Run S Neighbours
  succ_answers p peers pre succ n (some e) = record {
    node = n;
    calls = request_leave succ ∷ [];
    result = err e;
  }
  succ_answers p peers pre succ n none =
      let (state, (curr, moved)) = transition n.state active leaving in
      if moved
      then leave_locked p peers pre succ (request_leave succ ∷ []) (record n { state = state })
      else record {
        node = n;
        calls = request_leave succ ∷ finish_leave succ false true ∷ [];
        result = err (chord leave_invalid_state);
      }

  -- The order for the others: the node's own lock first, then the successor answers.
  unfoldable pub succ_answers_after :
      Provider S → Peers → VNode → VNode → LocalNode S → Option Error → Run S Neighbours
  succ_answers_after p peers pre succ n (some e) = record {
    node = set_state active n;
    calls = request_leave succ ∷ [];
    result = err e;
  }
  succ_answers_after p peers pre succ n none =
      leave_locked p peers pre succ (request_leave succ ∷ []) n

  unfoldable pub leave_self_first :
      Provider S → Peers → VNode → VNode → LocalNode S → Run S Neighbours
  leave_self_first p peers pre succ n =
      let (state, (curr, moved)) = transition n.state active leaving in
      if moved
      then succ_answers_after p peers pre succ (record n { state = state })
          (peers.request_to_leave succ n.self)
      else record { node = n; calls = []; result = err (chord leave_invalid_state) }

  unfoldable pub leave_between :
      Provider S → Peers → Option VNode → Option VNode → LocalNode S → Run S Neighbours
  leave_between p peers none succ n = record {
    node = n;
    calls = [];
    result = err (plain "retrying on nil predecessor");
  }
  leave_between p peers (some pre) none n = record {
    node = n;
    calls = [];
    result = err (chord node_no_successor);
  }
  leave_between p peers (some pre) (some succ) n =
      if pre.id == n.self.id && succ.id == n.self.id
      then record { node = n; calls = []; result = ok (some pre, some succ) }
      else if ltb succ.id n.self.id
      then succ_answers p peers pre succ n (peers.request_to_leave succ n.self)
      else leave_self_first p peers pre succ n

  -- executeLeave
  unfoldable pub execute_leave : Provider S → Peers → LocalNode S → Run S Neighbours
  execute_leave p peers n = leave_between p peers n.predecessor (get_successor n) n

  -- RequestToLeave
  unfoldable pub request_to_leave : LocalNode S → LocalNode S × Option Error
  request_to_leave n =
      let (state, (curr, moved)) = transition n.state active transferring in
      if moved then (record n { state = state }, none) else (n, some (chord leave_invalid_state))

  -- FinishLeave
  unfoldable pub finish_leave_here :
      Peers → ListHash → ℕ → Bool → Bool → LocalNode S → LocalNode S × Option Error
  finish_leave_here peers hash now stabilizes releases n =
      let n' = if stabilizes then start_tasks peers hash now n else n in
      if releases then release_lock (chord leave_invalid_state) n' else (n', none)

  -- `v != nil && v.ID() != n.ID()`
  finish_at : LocalNode S → Option VNode → Bool → Bool → List Call
  finish_at n none stabilizes releases = []
  finish_at n (some v) stabilizes releases =
      if v.id == n.self.id then [] else finish_leave v stabilizes releases ∷ []

  left_with : Run S Neighbours → Run S (Unit {0})
  unfolding finish_at
  left_with r = elim r.result [
    | err e ↦ record { node = r.node; calls = r.calls; result = err e }
    | ok (pre, succ) ↦ record {
      node = set_state left r.node;
      calls = r.calls ++ (finish_at r.node pre true false ++ finish_at r.node succ false true);
      result = ok tt;
    }
  ]

  -- The attempts of retry.Do, with what the others answer at each: any error is tried again.
  unfoldable pub attempt_leave :
      Provider S → List Peers → List Call → LocalNode S → Run S Neighbours
  attempt_leave p [] calls n = record {
    node = n;
    calls = calls;
    result = err (plain "All attempts fail");
  }
  attempt_leave p (peers ∷ rest) calls n =
      let run = execute_leave p peers n in
      let again = attempt_leave p rest (calls ++ run.calls) run.node in
      elim run.result [
        | ok r ↦ record { node = run.node; calls = calls ++ run.calls; result = ok r }
        | err e ↦ again
      ]

  leave_from : State → Provider S → List Peers → LocalNode S → Run S (Unit {0})
  unfolding left_with
  leave_from inactive p attempts n = record { node = n; calls = []; result = ok tt }
  leave_from leaving p attempts n = record { node = n; calls = []; result = ok tt }
  leave_from left p attempts n = record { node = n; calls = []; result = ok tt }
  leave_from _ p attempts n = left_with (attempt_leave p attempts [] n)

  -- Leave: at most ten attempts. The periodic tasks stop where it succeeds.
  unfoldable pub leave : Provider S → List Peers → LocalNode S → Run S (Unit {0})
  unfolding leave_from
  leave p attempts n = leave_from (NodeState.get n.state) p attempts n
