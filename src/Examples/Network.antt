-- ===== src/Examples/Network.antt =====
-- A ring of two nodes, at 10 and 20, with its pointers in order; a joiner at 15; and a leave.
use specter.Prelude.{
  List, ℕ, ◌+◌, ◌<◌, ◌^◌, ◌≡◌, ◌≢◌, ◌⊎◌, refl, ap, sym, subst, Bool, true, false, ◌||◌, Option,
  none, some, inl, inr, [], ◌∷◌, if◌then◌else◌, ◌==◌, ==_iff, Bool-cases, arith, Bytes,
}
use specter.VNode.{VNode, same_ref}
use specter.Ring.{max_identifier, between, distance, hash}
use specter.Errors.{Result, ok, chord, node_gone}
use specter.Chord.NodeState
use specter.Chord.NodeState.{active, transferring, new_node_state, state_beq}
use specter.Chord.Node.{
  LocalNode, Peers, Provider, KvCall, nothing, get_successor, check_node_state,
}
use specter.Chord.Node.Lookup.{find_successor, decide, owns}
use specter.Chord.Node.Kv.{kv_target, kv_call, handle, surrogate_for, out_of_range}
use specter.Chord.Node.Kv.Ownership.{kv_call_writer, kv_call_one_writer}
use specter.Chord.Node.Notify.{notify}
use specter.Chord.Node.Notify.Closer.{notify_closer}
use specter.Chord.Node.Join.{request_to_join}
use specter.Chord.Node.Join.Outcomes.{Joined, request_to_join-Joined}
use specter.Chord.Node.Tasks.{live_list, first_of, through_head, through_closer}
use specter.Chord.Node.Tasks.Repair.{Repaired, live_list-Repaired}
use specter.Ring.SuccList.{make_succ_list_by_id, make_succ_list}
use specter.Chord.Routing.{World, Reached, here, unreachable, route}
use specter.Chord.Routing.Termination.{IsNamed, route_total}
use specter.Chord.Routing.Ownership.{Owns, IsStable, route_owner}

abbrev at : ℕ → VNode
at i = record { handle = i; id = i; address = [] }

abbrev node : ℕ → ℕ → LocalNode ℕ
node i other = record {
  self = at i;
  state = new_node_state active;
  predecessor = some (at other);
  surrogate = none;
  successors = some (at other) ∷ [];
  succ_list_hash = 0;
  fingers = λ k. some (at other);
  kv = 0;
  kv_stale_count = 0;
  last_stabilized = 0;
}

abbrev ring : World ℕ
ring v =
    if v.id == 10
    then here (node 10 20)
    else if v.id == 20
    then here (node 20 10)
    else unreachable (chord node_gone)

abbrev member : ℕ → Bool
member x = (x == 10) || (x == 20)

abbrev node_in : LocalNode ℕ → Reached ℕ → LocalNode ℕ
node_in default (here n) = n
node_in default (unreachable e) = default

-- What holds of the two nodes holds of every node that a reference leads to.
on_ring :
    (P : ℕ → LocalNode ℕ → Type 0)
    → P 10 (node 10 20)
    → P 20 (node 20 10)
    → (v : VNode) (n : LocalNode ℕ) → ring v ≡ here n
    → P v.id n
on_ring P p q v n e = elim (Bool-cases (v.id == 10)) [
  | inl a ↦
      subst (λ i. P i n) (sym ((==_iff v.id 10).0 a)) (subst (P 10) (ap (node_in n) (rw a at e)) p)
  | inr a ↦ elim (Bool-cases (v.id == 20)) [
    | inl b ↦
        subst (λ i. P i n) (sym ((==_iff v.id 20).0 b))
          (subst (P 20) (ap (node_in n) (rw (a, b) at e)) q)
    | inr b ↦ absurd (ground (arith, rw (a, b) at e))
  ]
]

abbrev id_of : Option VNode → ℕ
id_of none = 0
id_of (some v) = v.id

ring-IsNamed : IsNamed ring
ring-IsNamed = record {
  named = on_ring (λ i n. n.self.id ≡ i) refl refl;
  node_on_circle = on_ring (λ i n. n.self.id < max_identifier) (omega arith) (omega arith);
  finger_on_circle = λ v n k f e.
      on_ring (λ i n. n.fingers k ≡ some f → f.id < max_identifier) (λ h. omega (arith, ap id_of h))
        (λ h. omega (arith, ap id_of h)) v n e;
  successor_on_circle = λ v n s e.
      on_ring (λ i n. get_successor n ≡ some s → s.id < max_identifier)
        (unfold get_successor in λ h. omega (arith, ap id_of h))
        (unfold get_successor in λ h. omega (arith, ap id_of h)) v n e;
}

between_members :
    (a b x p : ℕ)
    → (a ≡ 10) × (b ≡ 20) ⊎ (a ≡ 20) × (b ≡ 10)
    → b ≡ p
    → member x ≡ true
    → (between p x a false ≡ false) × (between a x p false ≡ false)
unfolding between
between_members a b x p s e m = (ground arith, ground arith)

abbrev the : Option VNode → VNode
the none = at 0
the (some v) = v

ring-IsStable : IsStable ring member
ring-IsStable = record {
  is_member = on_ring (λ i n. member n.self.id ≡ true) refl refl;
  is_active =
      on_ring (λ i n. NodeState.get n.state ≡ active) (unfold new_node_state NodeState.get in refl)
        (unfold new_node_state NodeState.get in refl);
  predecessor_adjacent = λ v n p x e.
      on_ring
        (λ i n.
          n.predecessor ≡ some p
          → x < max_identifier
          → member x ≡ true
          → (p.id < max_identifier) × (between p.id x n.self.id false ≡ false))
        (λ h lx mx. (
          omega (arith, ap id_of h),
          (between_members 10 20 x p.id (inl (refl, refl)) (ap id_of h) mx).0,
        ))
        (λ h lx mx. (
          omega (arith, ap id_of h),
          (between_members 20 10 x p.id (inr (refl, refl)) (ap id_of h) mx).0,
        ))
        v n e;
  has_successor =
      on_ring (λ i n. (s : VNode) × (get_successor n ≡ some s) × (member s.id ≡ true))
        (at 20, unfold get_successor in refl, refl) (at 10, unfold get_successor in refl, refl);
  successor_adjacent = λ v n s x e.
      on_ring
        (λ i n.
          get_successor n ≡ some s
          → x < max_identifier
          → member x ≡ true
          → between n.self.id x s.id false ≡ false)
        (unfold get_successor in
          λ h lx mx. (between_members 10 20 x s.id (inl (refl, refl)) (ap id_of h) mx).1)
        (unfold get_successor in
          λ h lx mx. (between_members 20 10 x s.id (inr (refl, refl)) (ap id_of h) mx).1)
        v n e;
  successor_reached = λ v n s e.
      on_ring (λ i n. get_successor n ≡ some s → (m : LocalNode ℕ) × (ring s ≡ here m))
        (unfold get_successor in
          λ h. subst (λ s. (m : LocalNode ℕ) × (ring s ≡ here m)) (ap the h) (node 20 10, refl))
        (unfold get_successor in
          λ h. subst (λ s. (m : LocalNode ℕ) × (ring s ≡ here m)) (ap the h) (node 10 20, refl))
        v n e;
  finger_reached = λ v n k f e.
      on_ring (λ i n. n.fingers k ≡ some f → (m : LocalNode ℕ) × (ring f ≡ here m))
        (λ h. subst (λ s. (m : LocalNode ℕ) × (ring s ≡ here m)) (ap the h) (node 20 10, refl))
        (λ h. subst (λ s. (m : LocalNode ℕ) × (ring s ≡ here m)) (ap the h) (node 10 20, refl)) v n
        e;
}

near : distance 10 12 < 3
near = unfold distance in omega arith

route_total_example : (r : Result (Option VNode)) × (route 3 ring (at 10) 12 ≡ some r)
route_total_example = route_total 3 ring (at 10) 12 ring-IsNamed (omega arith) near

route_owner_example :
    (v : VNode) × (route 3 ring (at 10) 12 ≡ some (ok (some v))) × Owns member v.id 12
route_owner_example =
    route_owner 3 ring member (at 10) (node 10 20) 12 ring-IsNamed ring-IsStable (omega arith) refl
      near

-- The others answer every call, with nothing to say.
abbrev quiet : Peers
quiet = record {
  kv = λ v c. ok nothing;
  ping = λ v. none;
  notify = λ v. none;
  find_successor = λ v key. ok (some v);
  get_successors = λ v. ok [];
  get_predecessor = λ v. ok none;
  request_to_join = λ v joiner. ok (none, []);
  finish_join = λ v stabilizes releases. none;
  request_to_leave = λ v leaver. none;
  finish_leave = λ v stabilizes releases. none;
  import = λ v keys values. none;
}

-- A store that counts its calls.
abbrev counter : Provider ℕ
counter = record {
  call = λ c s. (s + 1, ok nothing);
  range_keys = λ low high s. ok ((1 ∷ []) ∷ []);
  export = λ keys s. ok [];
  import = λ keys values s. (s, none);
  remove_keys = λ keys s. (s, none);
}

abbrev xxh3 : Bytes → ℕ
xxh3 b = 12

counted : (c : KvCall) → (kv_call xxh3 counter quiet false c (node 20 10)).0.kv ≡ 1
unfolding kv_call kv_target handle find_successor decide owns check_node_state NodeState.get
    new_node_state between hash surrogate_for out_of_range state_beq
counted c = refl

writes : (c : KvCall) → (kv_call xxh3 counter quiet false c (node 20 10)).0.kv ≢ 0
writes c = λ h. omega (arith, h, counted c)

kv_call_writer_example :
    (NodeState.get (node 20 10).state ≡ active)
    × (between 10 (hash xxh3 (1 ∷ [])) 20 true ≡ true)
    × (surrogate_for (node 20 10) (hash xxh3 (1 ∷ [])) ≡ none)
kv_call_writer_example =
    kv_call_writer xxh3 counter quiet (KvCall.get (1 ∷ [])) (node 20 10) (at 10) refl
      (writes (KvCall.get (1 ∷ [])))

kv_call_one_writer_example : (node 20 10).self.id ≡ (node 20 10).self.id
kv_call_one_writer_example =
    kv_call_one_writer xxh3 counter quiet quiet (KvCall.get (1 ∷ [])) (KvCall.delete (1 ∷ [])) ring
      member (at 20) (at 20) (at 10) (at 10) (node 20 10) (node 20 10) ring-IsNamed ring-IsStable
      refl refl refl refl refl (writes (KvCall.get (1 ∷ []))) (writes (KvCall.delete (1 ∷ [])))

notify_closer_example :
    ((notify quiet (λ n. n) (at 15) (node 20 10)).0.predecessor ≡ some (at 10))
    ⊎ ((notify quiet (λ n. n) (at 15) (node 20 10)).0.predecessor ≡ some (at 10))
    ⊎ (((notify quiet (λ n. n) (at 15) (node 20 10)).0.predecessor ≡ some (at 15))
        × (same_ref (some (at 10)) (some (at 10)) ≡ true)
        × (distance 15 20 < distance 10 20))
notify_closer_example =
    notify_closer quiet (λ n. n) (at 15) (at 10) (node 20 10) (omega arith) (omega arith)
      (omega arith) refl refl

small_word : (i j : ℕ) → (node i j).state.word < 2 ^ 64
small_word i j = unfold new_node_state in omega arith

request_to_join-Joined_example :
    Joined (at 15) (node 20 10) (request_to_join counter quiet (at 15) (node 20 10))
request_to_join-Joined_example =
    request_to_join-Joined counter quiet (at 15) (node 20 10) (small_word 20 10)

abbrev settled : List VNode
settled = at 20 ∷ []

settles : live_list quiet (node 10 20) (at 20 ∷ at 30 ∷ []) ≡ some settled
settles =
    unfold live_list first_of through_head through_closer make_succ_list_by_id make_succ_list in
    refl

live_list-Repaired_example :
    Repaired quiet
      (node 10 20)
      (at 20 ∷ at 30 ∷ [])
      (live_list quiet (node 10 20) (at 20 ∷ at 30 ∷ []))
live_list-Repaired_example = live_list-Repaired quiet (node 10 20) (at 20 ∷ at 30 ∷ [])
