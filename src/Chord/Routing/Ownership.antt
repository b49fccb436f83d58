-- ===== src/Chord/Routing/Ownership.antt =====
-- chord/local_chord.go: FindSuccessor across a ring whose pointers are in order.
use specter.Prelude.{
  ℕ, zero, suc, ◌<◌, ◌≡◌, ◌⊎◌, ap, ◌∙◌, Bool, true, false, Option, some, inl, inr, arith, ltb, not,
  ◌||◌, Bool-cases, Option-cases,
}
use specter.VNode.{VNode}
use specter.Ring.{max_identifier, between, distance}
use specter.Errors.{Result, ok}
use specter.Chord.NodeState.{get, active}
use specter.Chord.Node.{LocalNode, get_successor, check_node_state}
use specter.Chord.Node.Lookup.{answer, forward, decide, next_hop, owns}
use specter.Chord.Routing.{World, here, route}
use specter.Chord.Routing.Termination.{
  IsNamed, next_hop_cases, decide_forward, distance-forward, Decision-cases, route_answer,
  route_forward,
}

-- The owner of a key: whatever other member one starts from, the key is met on the way to it.
-- The members of a ring are given by their identifiers.
pub record Owns (member : ℕ → Bool) (u key : ℕ) : Type 0 where
  pub is_member : member u ≡ true
  pub met :
      (x : ℕ) → (not (ltb x max_identifier) || (not (member x) || between x key u true)) ≡ true

same_owner :
    (s t : Bool) (u v key : ℕ)
    → u < max_identifier
    → v < max_identifier
    → key < max_identifier
    → s ≡ true
    → t ≡ true
    → (not (ltb v max_identifier) || (not t || between v key u true)) ≡ true
    → (not (ltb u max_identifier) || (not s || between u key v true)) ≡ true
    → u ≡ v
unfolding between
same_owner s t u v key hu hv hk a b p q = ground arith

-- Two owners of one key are one node.
pub Owns-unique :
    (member : ℕ → Bool) (u v key : ℕ)
    → u < max_identifier
    → v < max_identifier
    → key < max_identifier
    → Owns member u key
    → Owns member v key
    → u ≡ v
Owns-unique member u v key hu hv hk a b =
    same_owner (member u) (member v) u v key hu hv hk a.is_member b.is_member (a.met v) (b.met u)

arc_owner :
    (p u key x : ℕ)
    → p < max_identifier
    → u < max_identifier
    → key < max_identifier
    → x < max_identifier
    → between p key u true ≡ true
    → between p x u false ≡ false
    → between x key u true ≡ true
unfolding between
arc_owner p u key x hp hu hk hx h none_between = ground arith

-- A ring with its pointers in order: who can be reached is an Active member, between a member and
-- its predecessor or successor lies no member, and pointers lead to members that answer.
pub record IsStable {S : Type 0} (w : World S) (member : ℕ → Bool) : Type 0 where
  pub is_member : (v : VNode) (n : LocalNode S) → w v ≡ here n → member n.self.id ≡ true
  pub is_active : (v : VNode) (n : LocalNode S) → w v ≡ here n → get n.state ≡ active
  pub predecessor_adjacent :
      (v : VNode) (n : LocalNode S) (p : VNode) (x : ℕ)
      → w v ≡ here n
      → n.predecessor ≡ some p
      → x < max_identifier
      → member x ≡ true
      → (p.id < max_identifier) × (between p.id x n.self.id false ≡ false)
  pub has_successor :
      (v : VNode) (n : LocalNode S)
      → w v ≡ here n
      → (s : VNode) × (get_successor n ≡ some s) × (member s.id ≡ true)
  pub successor_adjacent :
      (v : VNode) (n : LocalNode S) (s : VNode) (x : ℕ)
      → w v ≡ here n
      → get_successor n ≡ some s
      → x < max_identifier
      → member x ≡ true
      → between n.self.id x s.id false ≡ false
  pub successor_reached :
      (v : VNode) (n : LocalNode S) (s : VNode)
      → w v ≡ here n
      → get_successor n ≡ some s
      → (m : LocalNode S) × (w s ≡ here m)
  pub finger_reached :
      (v : VNode) (n : LocalNode S) (k : ℕ) (f : VNode)
      → w v ≡ here n
      → n.fingers k ≡ some f
      → (m : LocalNode S) × (w f ≡ here m)

-- The arc that ends at a member and starts at an identifier with no member between belongs to it.
pub arc-Owns :
    (member : ℕ → Bool) (p u key : ℕ)
    → p < max_identifier
    → u < max_identifier
    → key < max_identifier
    → member u ≡ true
    → between p key u true ≡ true
    → ((x : ℕ) → x < max_identifier → member x ≡ true → between p x u false ≡ false)
    → Owns member u key
arc-Owns member p u key hp hu hk m arc free = record { is_member = m; met = λ x. met_at x }
  where
    met_at :
        (x : ℕ) → (not (ltb x max_identifier) || (not (member x) || between x key u true)) ≡ true
    met_at x = ground (
      arith,
      free x,
      λ (lt : x < max_identifier) (mx : member x ≡ true).
          arc_owner p u key x hp hu hk lt arc (free x lt mx),
    )

module _ {S : Type 0} where
  -- How a node that is Active and has a successor answers.
  decide_answer :
      (n : LocalNode S) (key : ℕ) (s : VNode) (r : Result (Option VNode))
      → get n.state ≡ active
      → get_successor n ≡ some s
      → decide n key ≡ answer r
      → ((r ≡ ok (some n.self)) × (owns n key ≡ true))
        ⊎ ((r ≡ ok (some s)) × (between n.self.id key s.id true ≡ true))
  unfolding decide check_node_state
  decide_answer n key s r a e d = elim (Bool-cases (owns n key)) [
    | inl o ↦ inl (ground (arith, a, o, d), o)
    | inr o ↦ inr (ground (arith, a, o, e, d), ground (arith, a, o, e, d))
  ]

  owns-predecessor :
      (n : LocalNode S) (key : ℕ)
      → owns n key ≡ true
      → (p : VNode) × (n.predecessor ≡ some p) × (between p.id key n.self.id true ≡ true)
  unfolding owns
  owns-predecessor n key h = elim (Option-cases n.predecessor) [
    | inl e ↦ absurd (ground (arith, e))
    | inr (p, e) ↦ (p, e, ground (arith, e))
  ]

  node_owner :
      (w : World S) (member : ℕ → Bool) (u : VNode) (n : LocalNode S) (key : ℕ)
      → IsNamed w
      → IsStable w member
      → key < max_identifier
      → w u ≡ here n
      → owns n key ≡ true
      → Owns member n.self.id key
  node_owner w member u n key named stable lt e o =
      let (p, pre, arc) = owns-predecessor n key o in
      let m : member n.self.id ≡ true = stable.is_member u n e in
      let on_circle : n.self.id < max_identifier = named.node_on_circle u n e in
      arc-Owns member p.id n.self.id key
        (stable.predecessor_adjacent u n p n.self.id e pre on_circle m).0 on_circle lt m arc
        (λ x lx mx. (stable.predecessor_adjacent u n p x e pre lx mx).1)

  successor_owner :
      (w : World S) (member : ℕ → Bool) (u : VNode) (n : LocalNode S) (s : VNode) (key : ℕ)
      → IsNamed w
      → IsStable w member
      → key < max_identifier
      → w u ≡ here n
      → get_successor n ≡ some s
      → member s.id ≡ true
      → between n.self.id key s.id true ≡ true
      → Owns member s.id key
  successor_owner w member u n s key named stable lt e su m arc =
      arc-Owns member n.self.id s.id key (named.node_on_circle u n e)
        (named.successor_on_circle u n s e su) lt m arc
        (λ x lx mx. stable.successor_adjacent u n s x e su lx mx)

  forward_reached :
      (w : World S) (member : ℕ → Bool) (u : VNode) (n : LocalNode S) (key : ℕ) (v : VNode)
      → IsStable w member
      → w u ≡ here n
      → decide n key ≡ forward v
      → (m : LocalNode S) × (w v ≡ here m)
  forward_reached w member u n key v stable e d =
      let (s, su, beyond, hop) = decide_forward n key v d in
      elim (next_hop_cases n key s) [
        | inl same ↦ rw (hop ∙ same) (stable.successor_reached u n s e su)
        | inr (j, finger, closer) ↦ rw hop (stable.finger_reached u n j (next_hop n key s) e finger)
      ]

  -- On a ring whose references lead to nodes of their identifiers and whose pointers are in
  -- order, with every node Active and whatever reachable members the fingers name, a lookup of
  -- an identifier on the circle from a member with more fuel than there are steps clockwise to
  -- the identifier ends with a node, and that node is an owner of the identifier.
  pub route_owner :
      (fuel : ℕ) (w : World S) (member : ℕ → Bool) (u : VNode) (n : LocalNode S) (key : ℕ)
      → IsNamed w
      → IsStable w member
      → key < max_identifier
      → w u ≡ here n
      → distance u.id key < fuel
      → (v : VNode) × (route fuel w u key ≡ some (ok (some v))) × Owns member v.id key
  route_owner zero w member u n key named stable lt e enough = absurd (omega arith)
  route_owner (suc fuel) w member u n key named stable lt e enough =
      elim (Decision-cases (decide n key)) [
        | inl (r, d) ↦
            let (s, su, ms) = stable.has_successor u n e in
            elim (decide_answer n key s r (stable.is_active u n e) su d) [
              | inl (own, o) ↦ (
                n.self,
                route_answer fuel w u key n r e d ∙ ap some own,
                node_owner w member u n key named stable lt e o,
              )
              | inr (next, arc) ↦ (
                s,
                route_answer fuel w u key n r e d ∙ ap some next,
                successor_owner w member u n s key named stable lt e su ms arc,
              )
            ]
        | inr (v, d) ↦
            let (m, em) = forward_reached w member u n key v stable e d in
            let (owner, ends, its) =
              route_owner fuel w member v m key named stable lt em
                (omega (arith, (distance-forward w u n key v named lt e d).1)) in
            (owner, route_forward fuel w u key n v e d ∙ ends, its)
      ]
