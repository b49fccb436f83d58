-- ===== src/Chord/Node/Kv/Ownership.antt =====
-- chord/local_kv.go: routed calls that change the store of the node that is called.
use specter.Prelude.{
  ℕ, ◌<◌, ◌≡◌, ◌≢◌, refl, Bool, true, false, Option, none, some, ◌⊎◌, inl, inr, if_both, Bytes,
  arith, not, ◌==◌, Bool-cases, Option-cases,
}
use specter.VNode.{VNode}
use specter.Ring.{max_identifier, between, hash}
use specter.Ring.Distance.{hash-lt}
use specter.Errors.{Error, Result, ok, err}
use specter.Chord.NodeState
use specter.Chord.NodeState.{State, active, state_beq}
use specter.Chord.Node.{LocalNode, Peers, Provider, KvCall}
use specter.Chord.Node.Lookup.{find_successor}
use specter.Chord.Node.Kv.{
  key_of, Target, replication, local, remote, surrogate, kv_target, target_from, own_target, handle,
  kv_call, surrogate_for, out_of_range,
}
use specter.Chord.Routing.{World, here}
use specter.Chord.Routing.Termination.{IsNamed}
use specter.Chord.Routing.Ownership.{Owns, Owns-unique, IsStable, arc-Owns}

state_beq_active : (s : State) → state_beq s active ≡ true → s ≡ active
unfolding state_beq
state_beq_active s h = ground arith

not-not : (b : Bool) → not b ≡ false → b ≡ true
not-not b h = ground arith

module _ {S : Type 0} where
  -- What the middleware decides: the store is untouched, and only an Active node serves a key
  -- itself, one that its predecessor does not precede and its surrogate does not cover.
  data Decided (n : LocalNode S) (id : ℕ) : LocalNode S × Result Target → Type 0 where
    refused : {m : LocalNode S} {e : Error} → m.kv ≡ n.kv → Decided n id (m, err e)
    passed_on : {v : VNode} → Decided n id (n, ok (remote v))
    redirected : {m : LocalNode S} {v : VNode} → m.kv ≡ n.kv → Decided n id (m, ok (surrogate v))
    served :
        NodeState.get n.state ≡ active
        → out_of_range n id ≡ false
        → surrogate_for n id ≡ none
        → Decided n id (n, ok local)

  own_target-Decided : (n : LocalNode S) (id : ℕ) → Decided n id (own_target n id)
  own_target-Decided n id = elim (Bool-cases (state_beq (NodeState.get n.state) active)) [
    | inr f ↦ unfold own_target in rw f (refused refl)
    | inl a ↦ elim (Option-cases (surrogate_for n id)) [
      | inr (v, s) ↦ unfold own_target in rw a (rw s (redirected refl))
      | inl s ↦ elim (Bool-cases (out_of_range n id)) [
        | inl o ↦ unfold own_target in rw a (rw s (rw o (refused refl)))
        | inr o ↦ unfold own_target in rw a (rw s (rw o (served (state_beq_active _ a) o s)))
      ]
    ]
  ]

  target_from-Decided :
      (n : LocalNode S) (id : ℕ) (r : Result (Option VNode)) → Decided n id (target_from n id r)
  unfolding target_from
  target_from-Decided n id (err e) = refused refl
  target_from-Decided n id (ok none) = refused refl
  target_from-Decided n id (ok (some succ)) =
      if_both (Decided n id) (succ.id == n.self.id) (own_target-Decided n id) passed_on

  -- The call changes the store only where the node serves the key.
  handled :
      (p : Provider S) (peers : Peers) (c : KvCall) (n : LocalNode S) (id : ℕ)
      (r : LocalNode S × Result Target)
      → Decided n id r
      → ((handle p peers c r).0.kv ≡ n.kv)
        ⊎ ((NodeState.get n.state ≡ active)
            × (out_of_range n id ≡ false)
            × (surrogate_for n id ≡ none))
  unfolding handle
  handled p peers c n id (m, err e) (refused k) = inl k
  handled p peers c n id (m, ok (remote v)) passed_on = inl refl
  handled p peers c n id (m, ok (surrogate v)) (redirected k) = inl k
  handled p peers c n id (m, ok replication) impossible = elim impossible [ ]
  handled p peers c n id (m, ok local) (served a o s) = inr (a, o, s)

  -- A routed call that changes the store of a node with a predecessor finds the node Active, the
  -- hash of the key on the arc from the predecessor to the node, and no surrogate for it.
  pub kv_call_writer :
      (xxh3 : Bytes → ℕ) (provider : Provider S) (peers : Peers) (c : KvCall) (n : LocalNode S)
      (p : VNode)
      → n.predecessor ≡ some p
      → (kv_call xxh3 provider peers false c n).0.kv ≢ n.kv
      → (NodeState.get n.state ≡ active)
        × (between p.id (hash xxh3 (key_of c)) n.self.id true ≡ true)
        × (surrogate_for n (hash xxh3 (key_of c)) ≡ none)
  unfolding kv_call kv_target
  kv_call_writer xxh3 provider peers c n p e changed =
      let id = hash xxh3 (key_of c) in
      elim (handled provider peers c n id _
        (target_from-Decided n id (find_successor peers n id))) [
          | inl same ↦ absurd (changed same)
          | inr (a, o, s) ↦ (a, in_range n id p e o, s)
        ]
    where
      in_range :
          (n : LocalNode S) (id : ℕ) (p : VNode)
          → n.predecessor ≡ some p
          → out_of_range n id ≡ false
          → between p.id id n.self.id true ≡ true
      in_range n id p e o = not-not _ (unfold out_of_range in rw (e, out_of_range) at o)

  writer_owner :
      (w : World S) (member : ℕ → Bool) (u p : VNode) (n : LocalNode S) (key : ℕ)
      → IsNamed w
      → IsStable w member
      → key < max_identifier
      → w u ≡ here n
      → n.predecessor ≡ some p
      → between p.id key n.self.id true ≡ true
      → Owns member n.self.id key
  writer_owner w member u p n key named stable lt e pre arc =
      let m : member n.self.id ≡ true = stable.is_member u n e in
      let on_circle : n.self.id < max_identifier = named.node_on_circle u n e in
      arc-Owns member p.id n.self.id key
        (stable.predecessor_adjacent u n p n.self.id e pre on_circle m).0 on_circle lt m arc
        (λ x lx mx. (stable.predecessor_adjacent u n p x e pre lx mx).1)

  -- On a ring whose references lead to nodes of their identifiers and whose pointers are in
  -- order, if two nodes with predecessors each change their store by a routed call for one key,
  -- whatever the other nodes answer, the two have one identifier.
  pub kv_call_one_writer :
      (xxh3 : Bytes → ℕ) (provider : Provider S) (at_n at_m : Peers) (c d : KvCall) (w : World S)
      (member : ℕ → Bool) (u v p q : VNode) (n m : LocalNode S)
      → IsNamed w
      → IsStable w member
      → w u ≡ here n
      → w v ≡ here m
      → n.predecessor ≡ some p
      → m.predecessor ≡ some q
      → key_of c ≡ key_of d
      → (kv_call xxh3 provider at_n false c n).0.kv ≢ n.kv
      → (kv_call xxh3 provider at_m false d m).0.kv ≢ m.kv
      → n.self.id ≡ m.self.id
  kv_call_one_writer xxh3 provider at_n at_m c d w member u v p q n m named stable eu ev pre pre'
        same writes writes' =
      let lt = hash-lt xxh3 (key_of d) in
      let (a, arc, s) = kv_call_writer xxh3 provider at_n c n p pre writes in
      let (a', arc', s') = kv_call_writer xxh3 provider at_m d m q pre' writes' in
      Owns-unique member n.self.id m.self.id (hash xxh3 (key_of d)) (named.node_on_circle u n eu)
        (named.node_on_circle v m ev) lt
        (writer_owner w member u p n _ named stable lt eu pre (rw same at arc))
        (writer_owner w member v q m _ named stable lt ev pre' arc')
