-- ===== src/Chord/Node/Tasks/Repair.antt =====
-- chord/local_tasks.go: the successor list that a round of stabilize settles on.
use specter.Prelude.{
  ◌≡◌, refl, true, false, Option, none, some, inl, inr, List, [], ◌∷◌, somes, arith, Bool-cases,
  nat_eq,
}
use specter.VNode.{VNode}
use specter.Ring.{between, extended_successor_entries}
use specter.Ring.SuccList.{IsSuccList, make_succ_list_by_id, by_id-IsSuccList}
use specter.Errors.{Error, Result, ok, err}
use specter.Chord.Node.{LocalNode, Peers}
use specter.Chord.Node.Tasks.{closer_list, through_closer, through_head, first_of, live_list}

abbrev IsList : VNode → List (Option VNode) → List VNode → Type 0
IsList head offered list =
    IsSuccList (λ u. u.id) head (somes offered) extended_successor_entries list

module _ {S : Type 0} where
  -- No node closer than `head` can be adopted: it has no predecessor, that one does not lie between,
  -- or it does not answer.
  pub data NoCloser (peers : Peers) (n : LocalNode S) (head : VNode) : Option VNode → Type 0 where
    no_node : NoCloser peers n head none
    not_between :
        {v : VNode} → between n.self.id v.id head.id false ≡ false → NoCloser peers n head (some v)
    silent :
        {v : VNode} {e : Error} → peers.get_successors v ≡ err e → NoCloser peers n head (some v)

  -- A list that starts at the first of the old successors that answers both calls, or at the
  -- predecessor of that one, exactly if it lies between and answers; none if none of them does.
  pub data Repaired (peers : Peers) (n : LocalNode S)
      : List VNode → Option (List VNode) → Type 0 where
    nobody : Repaired peers n [] none
    through :
        {head : VNode} {rest list : List VNode} {pre : Option VNode} {offered : List (Option VNode)}
        → peers.get_predecessor head ≡ ok pre
        → peers.get_successors head ≡ ok offered
        → NoCloser peers n head pre
        → IsList head offered list
        → Repaired peers n (head ∷ rest) (some list)
    nearer :
        {head v : VNode} {rest list : List VNode} {old offered : List (Option VNode)}
        → peers.get_predecessor head ≡ ok (some v)
        → peers.get_successors head ≡ ok old
        → between n.self.id v.id head.id false ≡ true
        → peers.get_successors v ≡ ok offered
        → IsList v offered list
        → Repaired peers n (head ∷ rest) (some list)
    no_predecessor :
        {head : VNode} {rest : List VNode} {list : Option (List VNode)} {e : Error}
        → peers.get_predecessor head ≡ err e
        → Repaired peers n rest list
        → Repaired peers n (head ∷ rest) list
    no_successors :
        {head : VNode} {rest : List VNode} {list : Option (List VNode)} {e : Error}
        → peers.get_successors head ≡ err e
        → Repaired peers n rest list
        → Repaired peers n (head ∷ rest) list

  closer_list-Repaired :
      (peers : Peers) (n : LocalNode S) (head v : VNode) (rest : List VNode)
      (offered : List (Option VNode)) (answer : Result (List (Option VNode)))
      → peers.get_predecessor head ≡ ok (some v)
      → peers.get_successors head ≡ ok offered
      → between n.self.id v.id head.id false ≡ true
      → peers.get_successors v ≡ answer
      → Repaired peers n (head ∷ rest) (
          some
            (closer_list (make_succ_list_by_id head offered extended_successor_entries) v answer))
  unfolding closer_list
  closer_list-Repaired peers n head v rest offered (err e) p s b a =
      through p s (silent a)
        (by_id-IsSuccList head offered extended_successor_entries (omega arith))
  closer_list-Repaired peers n head v rest offered (ok list) p s b a =
      nearer p s b a (by_id-IsSuccList v list extended_successor_entries (omega arith))

  through_closer-Repaired :
      (peers : Peers) (n : LocalNode S) (head : VNode) (rest : List VNode)
      (offered : List (Option VNode)) (pre : Option VNode)
      → peers.get_predecessor head ≡ ok pre
      → peers.get_successors head ≡ ok offered
      → Repaired peers n (head ∷ rest) (
          some (
            through_closer peers n head
              (make_succ_list_by_id head offered extended_successor_entries)
              pre))
  unfolding through_closer
  through_closer-Repaired peers n head rest offered none p s =
      through p s no_node (by_id-IsSuccList head offered extended_successor_entries (omega arith))
  through_closer-Repaired peers n head rest offered (some v) p s =
      elim (Bool-cases (between n.self.id v.id head.id false)) [
        | inl b ↦
            rw b
              (closer_list-Repaired peers n head v rest offered (peers.get_successors v) p s b refl)
        | inr b ↦ rw b (
            through p s (not_between b)
              (by_id-IsSuccList head offered extended_successor_entries (omega arith)))
      ]

  -- The loop of stabilize finds no list exactly where each of the old successors fails to answer
  -- one of its two calls; otherwise the list is headed either by the first of them that answers
  -- both or by the predecessor that this one names, and by the latter exactly if it lies between
  -- the node and that successor and answers; and it is the head followed by what the head
  -- offered, within four entries and with no identifier twice, as MakeSuccListByID promises.
  pub live_list-Repaired :
      (peers : Peers) (n : LocalNode S) (old : List VNode)
      → Repaired peers n old (live_list peers n old)
  unfolding live_list
  live_list-Repaired peers n [] = nobody
  live_list-Repaired peers n (head ∷ rest) =
      by_answers (peers.get_predecessor head) (peers.get_successors head) refl refl
        (live_list-Repaired peers n rest)
    where
      by_answers :
          (p : Result (Option VNode)) (s : Result (List (Option VNode)))
          → peers.get_predecessor head ≡ p
          → peers.get_successors head ≡ s
          → Repaired peers n rest (live_list peers n rest)
          → Repaired peers n
              (head ∷ rest)
              (first_of (through_head peers n head p s) (live_list peers n rest))
      by_answers (err x) s p' s' later = unfold first_of through_head in no_predecessor p' later
      by_answers (ok pre) (err x) p' s' later =
          unfold first_of through_head in no_successors s' later
      by_answers (ok pre) (ok offered) p' s' later =
          unfold first_of through_head in
          through_closer-Repaired peers n head rest offered pre p' s'
