-- ===== src/Chord/Node/Join/Outcomes.antt =====
-- chord/local_chord.go: the outcomes of RequestToJoin at the node asked.
use specter.Prelude.{
  ◌<◌, ◌^◌, ◌≡◌, refl, sym, ◌∙◌, true, false, Option, none, some, inl, inr, List, if_both, arith,
  ◌==◌, Bool-cases,
}
use specter.VNode.{VNode}
use specter.Ring.{between}
use specter.Errors.{Error, Result, ok, err}
use specter.Chord.NodeState
use specter.Chord.NodeState.{NodeState, State, to_code, active, transferring, transition}
use specter.Chord.NodeState.Interference.{transition-Transitioned, Transitioned-moved}
use specter.Chord.NodeState.Setting.{transition-word}
use specter.Chord.Node.{LocalNode, Peers, Provider}
use specter.Chord.Node.Lookup.{find_successor}
use specter.Chord.Node.Join.{
  low_end, transfer_keys_upward, admit, join_behind, join_here, join_at, request_to_join,
}
use specter.Chord.Node.SameButKv.{
  SameButKv, send_ranged-SameButKv, SameButKv-refl, get-set_state_lem,
}

module _ {S : Type 0} where
  -- The outcomes. Without a list, or with the one that another node gives, state and pointers are
  -- as they were; with a list of its own the node was Active, is Transferring, and has the joiner,
  -- who lies strictly between its old predecessor and itself, as predecessor and surrogate.
  pub data Joined (joiner : VNode) (n : LocalNode S)
      : LocalNode S × Result (Option VNode × List VNode) → Type 0 where
    elsewhere : {r : Result (Option VNode × List VNode)} → Joined joiner n (n, r)
    refused :
        {m : LocalNode S} {e : Error}
        → NodeState.get m.state ≡ NodeState.get n.state
        → m.predecessor ≡ n.predecessor
        → m.surrogate ≡ n.surrogate
        → Joined joiner n (m, err e)
    admitted :
        {m : LocalNode S} {pre : VNode} {list : List VNode}
        → NodeState.get n.state ≡ active
        → NodeState.get m.state ≡ transferring
        → n.predecessor ≡ some pre
        → between pre.id joiner.id n.self.id false ≡ true
        → m.predecessor ≡ some joiner
        → m.surrogate ≡ some joiner
        → Joined joiner n (m, ok (some pre, list))

  transfer_keys_upward-SameButKv :
      (p : Provider S) (peers : Peers) (prev : Option VNode) (new : VNode) (n : LocalNode S)
      → SameButKv n (transfer_keys_upward p peers prev new n).0
  transfer_keys_upward-SameButKv p peers prev new n =
      unfold transfer_keys_upward in
      if_both (λ (r : LocalNode S × Option Error). SameButKv n r.0) (new.id == n.self.id)
        (SameButKv-refl n)
        (if_both (λ (r : LocalNode S × Option Error). SameButKv n r.0)
          (between (low_end n prev).id new.id n.self.id false)
          (send_ranged-SameButKv p peers new (p.range_keys (low_end n prev).id new.id n.kv) n)
          (SameButKv-refl n))

  admit-Joined :
      (n : LocalNode S) (pre joiner : VNode) (m : LocalNode S × Option Error)
      → NodeState.get n.state ≡ active
      → n.predecessor ≡ some pre
      → between pre.id joiner.id n.self.id false ≡ true
      → m.0.state.word < 2 ^ 64
      → NodeState.get m.0.state ≡ transferring
      → m.0.predecessor ≡ n.predecessor
      → m.0.surrogate ≡ n.surrogate
      → Joined joiner n (admit pre joiner m)
  unfolding admit
  admit-Joined n pre joiner (m, some e) a p b w t mp ms =
      refused (get-set_state_lem active m (unfold to_code in omega arith) w ∙ sym a) mp ms
  admit-Joined n pre joiner (m, none) a p b w t mp ms = admitted a t p b refl refl

  join_behind-Joined :
      (p : Provider S) (peers : Peers) (joiner : VNode) (n : LocalNode S) (s : NodeState)
      (pre : Option VNode)
      → NodeState.get n.state ≡ active
      → n.predecessor ≡ pre
      → s.word < 2 ^ 64
      → NodeState.get s ≡ transferring
      → Joined joiner n (join_behind p peers joiner pre (record n { state = s }))
  unfolding join_behind
  join_behind-Joined p peers joiner n s none a e w t =
      refused
        (get-set_state_lem active (record n { state = s }) (unfold to_code in omega arith) w
          ∙ sym a)
        refl refl
  join_behind-Joined p peers joiner n s (some pre) a e w t =
      elim (Bool-cases (between pre.id joiner.id n.self.id false)) [
        | inl b ↦
            let same =
              transfer_keys_upward-SameButKv p peers (some pre) joiner (record n { state = s }) in
            rw b (
              admit-Joined n pre joiner
                (transfer_keys_upward p peers (some pre) joiner (record n { state = s })) a e b
                (rw same.state w) (rw same.state t) same.predecessor same.surrogate)
        | inr b ↦ rw b (
            refused
              (get-set_state_lem active (record n { state = s }) (unfold to_code in omega arith) w
                ∙ sym a)
              refl refl)
      ]

  join_here-Joined :
      (p : Provider S) (peers : Peers) (joiner : VNode) (n : LocalNode S)
      → n.state.word < 2 ^ 64
      → Joined joiner n (join_here p peers joiner n)
  unfolding join_here
  join_here-Joined p peers joiner n w =
      elim (Bool-cases (transition n.state active transferring).1.1) [
        | inr lost ↦ rw lost elsewhere
        | inl took ↦
            let t =
              transition-Transitioned n.state active transferring w (unfold to_code in omega arith)
                (unfold to_code in omega arith) in
            let (a, moves) = Transitioned-moved (rw took at t) in
            rw took (
              join_behind-Joined p peers joiner n _ n.predecessor a refl
                (transition-word n.state active transferring (unfold to_code in omega arith) w)
                moves)
      ]

  join_at-Joined :
      (p : Provider S) (peers : Peers) (joiner : VNode) (n : LocalNode S)
      (r : Result (Option VNode))
      → n.state.word < 2 ^ 64
      → Joined joiner n (join_at p peers joiner r n)
  unfolding join_at
  join_at-Joined p peers joiner n (err e) w = elsewhere
  join_at-Joined p peers joiner n (ok none) w = elsewhere
  join_at-Joined p peers joiner n (ok (some succ)) w =
      if_both (Joined joiner n) (succ.id == joiner.id) elsewhere (
        if_both (Joined joiner n) (succ.id == n.self.id) (join_here-Joined p peers joiner n w)
          elsewhere)

  -- For a node whose state word has 64 bits, RequestToJoin ends in one of these outcomes: the
  -- node is unchanged; or it refuses with an error and its state, predecessor and surrogate are
  -- as before; or it was Active, is now Transferring, and has the joiner, who lies strictly
  -- between its old predecessor and itself, as predecessor and surrogate.
  pub request_to_join-Joined :
      (p : Provider S) (peers : Peers) (joiner : VNode) (n : LocalNode S)
      → n.state.word < 2 ^ 64
      → Joined joiner n (request_to_join p peers joiner n)
  unfolding request_to_join
  request_to_join-Joined p peers joiner n w =
      join_at-Joined p peers joiner n (find_successor peers n joiner.id) w
