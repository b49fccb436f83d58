-- ===== src/Chord/Routing/Termination.antt =====
-- chord/local_chord.go: the hops of FindSuccessor across any network.
use specter.Prelude.{
  ℕ, zero, suc, ◌<◌, ◌≡◌, ◌⊎◌, refl, ap, sym, subst, ◌∙◌, true, false, Option, none, some, inl, inr,
  arith, Bool-cases, Option-cases,
}
use specter.VNode.{VNode}
use specter.Ring.{max_identifier, max_finger_entries, between, distance}
use specter.Ring.Distance.{distance-lt_of_between}
use specter.Errors.{Result, Error, err}
use specter.Chord.Node.{LocalNode, get_successor}
use specter.Chord.Node.Lookup.{
  Decision, answer, forward, decide, finger_scan, finger_step, closest_preceding_node, next_hop,
}
use specter.Chord.Routing.{World, Reached, here, unreachable, route}

-- Identifiers lie on the circle (NodeConfig.Validate), and a reference leads to the node with its
-- identifier.
pub record IsNamed {S : Type 0} (w : World S) : Type 0 where
  pub named : (v : VNode) (n : LocalNode S) → w v ≡ here n → n.self.id ≡ v.id
  pub node_on_circle : (v : VNode) (n : LocalNode S) → w v ≡ here n → n.self.id < max_identifier
  pub finger_on_circle :
      (v : VNode) (n : LocalNode S) (k : ℕ) (f : VNode)
      → w v ≡ here n
      → n.fingers k ≡ some f
      → f.id < max_identifier
  pub successor_on_circle :
      (v : VNode) (n : LocalNode S) (s : VNode)
      → w v ≡ here n
      → get_successor n ≡ some s
      → s.id < max_identifier

-- Past a successor that does not own the key, the way to the key is shorter.
distance-successor :
    (a s k : ℕ)
    → a < max_identifier
    → s < max_identifier
    → k < max_identifier
    → between a k s true ≡ false
    → distance s k < distance a k
unfolding between distance
distance-successor a s k ha hs hk h = ground arith

abbrev unsome : VNode → Option VNode → VNode
unsome v none = v
unsome v (some u) = u

finger_step_found :
    (id key : ℕ) (o rest : Option VNode) (f : VNode)
    → finger_step id key o rest ≡ some f
    → ((o ≡ some f) × (between id f.id key false ≡ true)) ⊎ (rest ≡ some f)
unfolding finger_step
finger_step_found id key none rest f h = inr h
finger_step_found id key (some g) rest f h = elim (Bool-cases (between id g.id key false)) [
  | inl e ↦ let same : some g ≡ some f = rw e at h in inl (same, some_between id key e same)
  | inr e ↦ inr (rw e at h)
]
  where
    some_between :
        (i k : ℕ) {x y : VNode}
        → between i x.id k false ≡ true
        → some x ≡ some y
        → between i y.id k false ≡ true
    some_between i k e p = subst (λ v. between i v.id k false ≡ true) (ap (unsome g) p) e

-- A finger that the scan finds stands in the table and strictly between the node and the key.
pub finger_scan_found :
    (id key : ℕ) (fingers : ℕ → Option VNode) (k : ℕ) (f : VNode)
    → finger_scan id key fingers k ≡ some f
    → (j : ℕ) × (fingers j ≡ some f) × (between id f.id key false ≡ true)
unfolding finger_scan
finger_scan_found id key fingers zero f h = cc
finger_scan_found id key fingers (suc k) f h =
    elim (finger_step_found id key (fingers (suc k)) (finger_scan id key fingers k) f h) [
      | inl found ↦ (suc k, found.0, found.1)
      | inr lower ↦ finger_scan_found id key fingers k f lower
    ]

pub Decision-cases :
    (d : Decision)
    → ((r : Result (Option VNode)) × (d ≡ answer r)) ⊎ ((v : VNode) × (d ≡ forward v))
Decision-cases (answer r) = inl (r, refl)
Decision-cases (forward v) = inr (v, refl)

module _ {S : Type 0} where
  next_hop_found :
      (n : LocalNode S) (key : ℕ) (succ f : VNode)
      → finger_scan n.self.id key n.fingers max_finger_entries ≡ some f
      → (next_hop n key succ ≡ succ) ⊎ (next_hop n key succ ≡ f)
  unfolding next_hop closest_preceding_node
  next_hop_found n key succ f e = ground (arith, e)

  next_hop_missing :
      (n : LocalNode S) (key : ℕ) (succ : VNode)
      → finger_scan n.self.id key n.fingers max_finger_entries ≡ none
      → next_hop n key succ ≡ succ
  unfolding next_hop closest_preceding_node
  next_hop_missing n key succ e = ground (arith, e)

  -- A hop goes to the successor or to a finger that lies strictly between the node and the key.
  pub next_hop_cases :
      (n : LocalNode S) (key : ℕ) (succ : VNode)
      → (next_hop n key succ ≡ succ)
        ⊎ ((j : ℕ) × (n.fingers j ≡ some (next_hop n key succ))
            × (between n.self.id (next_hop n key succ).id key false ≡ true))
  next_hop_cases n key succ =
      elim (Option-cases (finger_scan n.self.id key n.fingers max_finger_entries)) [
        | inl e ↦ inl (next_hop_missing n key succ e)
        | inr (f, e) ↦ elim (next_hop_found n key succ f e) [
          | inl s ↦ inl s
          | inr p ↦
              let (j, stands, closer) =
                finger_scan_found n.self.id key n.fingers max_finger_entries f e in
              inr (
                j,
                stands ∙ ap some (sym p),
                subst (λ v. between n.self.id v.id key false ≡ true) (sym p) closer,
              )
        ]
      ]

  pub Reached-cases :
      (x : Reached S) → ((n : LocalNode S) × (x ≡ here n)) ⊎ ((e : Error) × (x ≡ unreachable e))
  Reached-cases (here n) = inl (n, refl)
  Reached-cases (unreachable e) = inr (e, refl)

  pub route_answer :
      (fuel : ℕ) (w : World S) (u : VNode) (key : ℕ) (n : LocalNode S) (r : Result (Option VNode))
      → w u ≡ here n
      → decide n key ≡ answer r
      → route (suc fuel) w u key ≡ some r
  unfolding route
  route_answer fuel w u key n r e d = rw (e, route) (rw d)

  pub route_forward :
      (fuel : ℕ) (w : World S) (u : VNode) (key : ℕ) (n : LocalNode S) (v : VNode)
      → w u ≡ here n
      → decide n key ≡ forward v
      → route (suc fuel) w u key ≡ route fuel w v key
  unfolding route
  route_forward fuel w u key n v e d = rw (e, route) (rw d)

  route_unreachable :
      (fuel : ℕ) (w : World S) (u : VNode) (key : ℕ) (x : Error)
      → w u ≡ unreachable x
      → route (suc fuel) w u key ≡ some (err x)
  unfolding route
  route_unreachable fuel w u key x e = rw (e, route)

  -- Where the decision is to forward, there is a successor that does not own the key.
  pub decide_forward :
      (n : LocalNode S) (key : ℕ) (v : VNode)
      → decide n key ≡ forward v
      → (succ : VNode) × (get_successor n ≡ some succ)
        × (between n.self.id key succ.id true ≡ false)
        × (v ≡ next_hop n key succ)
  unfolding decide
  decide_forward n key v h = elim (Option-cases (get_successor n)) [
    | inl e ↦ absurd (ground (arith, e))
    | inr (succ, e) ↦ (succ, e, ground (arith, e), ground (arith, e))
  ]

  -- The hop is strictly closer to the key than the node.
  pub distance-forward :
      (w : World S) (u : VNode) (n : LocalNode S) (key : ℕ) (v : VNode)
      → IsNamed w
      → key < max_identifier
      → w u ≡ here n
      → decide n key ≡ forward v
      → (v.id < max_identifier) × (distance v.id key < distance u.id key)
  distance-forward w u n key v named lt reached h =
      let (succ, stands, beyond, hop) = decide_forward n key v h in
      let here_id : n.self.id ≡ u.id = named.named u n reached in
      let on_circle : n.self.id < max_identifier = named.node_on_circle u n reached in
      let succ_on_circle : succ.id < max_identifier =
        named.successor_on_circle u n succ reached stands in
      elim (next_hop_cases n key succ) [
        | inl same ↦
            rw (hop ∙ same, ← here_id)
              (
                succ_on_circle,
                distance-successor n.self.id succ.id key on_circle succ_on_circle lt beyond,
              )
        | inr (j, finger, closer) ↦
            let f_on_circle : (next_hop n key succ).id < max_identifier =
              named.finger_on_circle u n j (next_hop n key succ) reached finger in
            rw (hop, ← here_id)
              (
                f_on_circle,
                distance-lt_of_between n.self.id (next_hop n key succ).id key on_circle f_on_circle
                    lt closer,
              )
      ]

  -- On a network whose references lead to nodes of their identifiers, which lie on the circle,
  -- whatever their other pointers and fingers, a lookup with more fuel than there are steps
  -- clockwise to the identifier ends with an answer or an error.
  pub route_total :
      (fuel : ℕ) (w : World S) (u : VNode) (key : ℕ)
      → IsNamed w
      → key < max_identifier
      → distance u.id key < fuel
      → (r : Result (Option VNode)) × (route fuel w u key ≡ some r)
  route_total zero w u key named lt enough = absurd (omega arith)
  route_total (suc fuel) w u key named lt enough = elim (Reached-cases (w u)) [
    | inl (n, e) ↦ elim (Decision-cases (decide n key)) [
      | inl (r, d) ↦ (r, route_answer fuel w u key n r e d)
      | inr (v, d) ↦
          let (r, rest) =
            route_total fuel w v key named lt
              (omega (arith, (distance-forward w u n key v named lt e d).1)) in
          (r, route_forward fuel w u key n v e d ∙ rest)
    ]
    | inr (x, e) ↦ (err x, route_unreachable fuel w u key x e)
  ]
