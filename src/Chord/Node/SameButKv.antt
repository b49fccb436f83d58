-- ===== src/Chord/Node/SameButKv.antt =====
-- chord/local_chord.go and chord/local_membership.go: what a transfer of keys leaves alone.
use specter.Prelude.{ℕ, ◌<◌, ◌^◌, ◌≡◌, refl, List, [], ◌∷◌, Bytes, arith}
use specter.VNode.{VNode}
use specter.Errors.{Result, ok, err}
use specter.Chord.NodeState
use specter.Chord.NodeState.{State, to_code}
use specter.Chord.NodeState.Setting.{get-set_state}
use specter.Chord.Node.{LocalNode, Peers, Provider}
use specter.Chord.Node.Join.{set_state, send_keys, send_ranged}

module _ {S : Type 0} where
  -- The transfer of the keys changes the store of the node only.
  pub record SameButKv (n m : LocalNode S) : Type 0 where
    pub self : m.self ≡ n.self
    pub state : m.state ≡ n.state
    pub surrogate : m.surrogate ≡ n.surrogate
    pub predecessor : m.predecessor ≡ n.predecessor

  pub SameButKv-refl : (n : LocalNode S) → SameButKv n n
  SameButKv-refl n = record { self = refl; state = refl; surrogate = refl; predecessor = refl }

  pub send_keys-SameButKv :
      (p : Provider S) (peers : Peers) (to : VNode) (keys : List (List ℕ)) (n : LocalNode S)
      → SameButKv n (send_keys p peers to keys n).0
  unfolding send_keys
  send_keys-SameButKv p peers to [] n = record {
    self = refl;
    state = refl;
    surrogate = refl;
    predecessor = refl;
  }
  send_keys-SameButKv p peers to (k ∷ keys) n = ground arith

  pub send_ranged-SameButKv :
      (p : Provider S) (peers : Peers) (to : VNode) (r : Result (List Bytes)) (n : LocalNode S)
      → SameButKv n (send_ranged p peers to r n).0
  unfolding send_ranged
  send_ranged-SameButKv p peers to (err e) n = record {
    self = refl;
    state = refl;
    surrogate = refl;
    predecessor = refl;
  }
  send_ranged-SameButKv p peers to (ok keys) n = send_keys-SameButKv p _ to keys n

  pub get-set_state_lem :
      (s : State) (n : LocalNode S)
      → to_code s < 16
      → n.state.word < 2 ^ 64
      → NodeState.get (set_state s n).state ≡ s
  get-set_state_lem s n k w = unfold NodeState.set in get-set_state n.state s [] k w tt
