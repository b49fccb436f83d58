-- ===== src/Chord/Node/Notify/Closer.antt =====
-- chord/local_chord.go: what Notify may do to the predecessor, whatever runs in between.
use specter.Prelude.{
  ◌<◌, ◌≡◌, refl, ap, sym, subst, ◌∙◌, true, false, Option, none, some, ◌⊎◌, inl, inr, if_both,
  arith, ◌==◌, Bool-cases,
}
use specter.VNode.{VNode, same_ref}
use specter.Ring.{max_identifier, between, distance}
use specter.Ring.Distance.{distance-lt_of_between}
use specter.Errors.{Error}
use specter.Chord.NodeState
use specter.Chord.Node.{LocalNode, Peers, check_node_state}
use specter.Chord.Node.Notify.{
  closer, candidate, store_surrogate, store_predecessor, commit, notified, notify,
}

module _ {S : Type 0} where
  store_surrogate-predecessor :
      (snapshot : Option VNode) (v : VNode) (m : LocalNode S)
      → (store_surrogate snapshot v m).predecessor ≡ m.predecessor
  store_surrogate-predecessor snapshot v m =
      unfold store_surrogate in
      if_both (λ (k : LocalNode S). k.predecessor ≡ m.predecessor) (same_ref snapshot m.surrogate)
        refl refl

  store_predecessor-predecessor :
      (snapshot : Option VNode) (v : VNode) (m : LocalNode S)
      → ((store_predecessor snapshot v m).predecessor ≡ m.predecessor)
        ⊎ ((store_predecessor snapshot v m).predecessor ≡ some v)
          × (same_ref snapshot m.predecessor ≡ true)
  store_predecessor-predecessor snapshot v m = elim (Bool-cases (same_ref snapshot m.predecessor)) [
    | inl e ↦ inr (unfold store_predecessor in rw e refl, e)
    | inr e ↦ inl (unfold store_predecessor in rw e refl)
  ]

  commit-predecessor :
      (surrogate pre new : Option VNode) (m : LocalNode S)
      → ((commit surrogate pre new m).predecessor ≡ m.predecessor)
        ⊎ ((v : VNode) × (new ≡ some v)
            × ((commit surrogate pre new m).predecessor ≡ some v)
            × (same_ref pre m.predecessor ≡ true))
  commit-predecessor surrogate pre none m = unfold commit in inl refl
  commit-predecessor surrogate pre (some v) m =
      let kept = store_surrogate-predecessor surrogate v m in
      elim (store_predecessor-predecessor pre v (store_surrogate surrogate v m)) [
        | inl e ↦ unfold commit in inl (e ∙ kept)
        | inr (e, same) ↦ unfold commit in inr (v, refl, e, rw kept at same)
      ]

  closer_lem :
      (n : LocalNode S) (old new v : VNode)
      → closer n old new none ≡ some v
      → (new ≡ v) × (between old.id new.id n.self.id false ≡ true)
  unfolding closer
  closer_lem n old new v c = elim (Bool-cases (between old.id new.id n.self.id false)) [
    | inl b ↦ (ground (arith, rw (b, closer) at c), b)
    | inr b ↦ absurd (ground (arith, rw (b, closer) at c))
  ]

  candidate-closer :
      (peers : Peers) (n : LocalNode S) (old new v : VNode)
      → peers.ping old ≡ none
      → candidate peers n (some old) new ≡ some v
      → (new ≡ v) × (between old.id new.id n.self.id false ≡ true)
  unfolding candidate
  candidate-closer peers n old new v alive c = elim (Bool-cases (old.id == new.id)) [
    | inl same ↦ absurd (ground (arith, rw (same, candidate) at c))
    | inr other ↦ closer_lem n old new v (rw (other, alive, candidate) at c)
  ]

  -- For a node with a predecessor that answers, and identifiers on the circle, Notify leaves the
  -- predecessor, or leaves it as the other goroutines left it, or finds the pointer of its
  -- snapshot unchanged and moves it to the notifying node, which lies nearer on the way
  -- clockwise to the node.
  pub notify_closer :
      (peers : Peers) (others : LocalNode S → LocalNode S) (new old : VNode) (n : LocalNode S)
      → n.self.id < max_identifier
      → old.id < max_identifier
      → new.id < max_identifier
      → n.predecessor ≡ some old
      → peers.ping old ≡ none
      → ((notify peers others new n).0.predecessor ≡ n.predecessor)
        ⊎ ((notify peers others new n).0.predecessor ≡ (others n).predecessor)
        ⊎ (((notify peers others new n).0.predecessor ≡ some new)
            × (same_ref (some old) (others n).predecessor ≡ true)
            × (distance new.id n.self.id < distance old.id n.self.id))
  notify_closer peers others new old n hn ho hv e alive =
      unfold notify in by_state (check_node_state false (NodeState.get n.state))
    where
      by_state :
          (answer : Option Error)
          → ((notified peers others new n answer).0.predecessor ≡ n.predecessor)
            ⊎ ((notified peers others new n answer).0.predecessor ≡ (others n).predecessor)
            ⊎ (((notified peers others new n answer).0.predecessor ≡ some new)
                × (same_ref (some old) (others n).predecessor ≡ true)
                × (distance new.id n.self.id < distance old.id n.self.id))
      by_state (some failure) = inl (unfold notified in refl)
      by_state none =
          elim (commit-predecessor n.surrogate n.predecessor (candidate peers n n.predecessor new)
            (others n)) [
              | inl same ↦ inr (inl (unfold notified in same))
              | inr (v, chosen, stored, ref) ↦
                  let (is_new, arc) =
                    candidate-closer peers n old new v alive
                      (subst (λ o. candidate peers n o new ≡ some v) e chosen) in
                  inr (
                    inr (
                      unfold notified in stored ∙ ap some (sym is_new),
                      subst (λ o. same_ref o (others n).predecessor ≡ true) e ref,
                      distance-lt_of_between old.id new.id n.self.id ho hv hn arc,
                    ))
            ]
