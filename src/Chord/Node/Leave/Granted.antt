-- ===== src/Chord/Node/Leave/Granted.antt =====
-- chord/local_membership.go: the membership locks of the other nodes, by the calls of a leaver.
use specter.Prelude.{
  ◌≡◌, ◌≢◌, refl, true, false, Option, none, some, List, [], ◌∷◌, inl, inr, if◌then◌else◌, ◌==◌,
  ◌&&◌, Bool-cases,
}
use specter.VNode.{VNode}
use specter.Errors.{Error}
use specter.Chord.Node.{Peers, Call, request_leave, finish_leave}

-- The lock of another node, as far as the answers of that node tell the leaver: `unreturned` if it
-- was asked back and FinishLeave failed.
pub data Lock : Type 0 where
  free held : Lock
  unreturned : Error → Lock

pub taken_by : Option Error → Lock → Lock
taken_by none l = held
taken_by (some e) l = l

pub given_back : Option Error → Lock
given_back none = free
given_back (some e) = unreturned e

-- The lock of `v` after these calls. It is taken by a RequestToLeave of this node that is answered
-- without an error, and given back by a FinishLeave of this node that releases.
pub lock_of : Peers → VNode → VNode → Lock → List Call → Lock
lock_of peers self v l [] = l
lock_of peers self v l (request_leave u ∷ rest) =
    lock_of peers self v
      (if u.handle == v.handle then taken_by (peers.request_to_leave u self) l else l) rest
lock_of peers self v l (finish_leave u stabilizes releases ∷ rest) =
    lock_of peers self v
      (if u.handle == v.handle && releases
        then given_back (peers.finish_leave u stabilizes releases)
        else l)
      rest
lock_of peers self v l (Call.finish_join u stabilizes releases ∷ rest) = lock_of peers self v l rest

given_back_not_held : (o : Option Error) → given_back o ≢ held
unfolding given_back
given_back_not_held none h = cc
given_back_not_held (some e) h = cc

module _ (peers : Peers) (self succ v : VNode) where
  pub no_calls : lock_of peers self v free [] ≢ held
  unfolding lock_of
  no_calls h = cc

  pub refused_request :
      {e : Error}
      → peers.request_to_leave succ self ≡ some e
      → lock_of peers self v free (request_leave succ ∷ []) ≢ held
  unfolding lock_of taken_by
  refused_request asked h = elim (Bool-cases (succ.handle == v.handle)) [
    | inl e ↦ cc (rw (e, asked) at h)
    | inr e ↦ cc (rw e at h)
  ]

  pub asked_back :
      lock_of peers self v free (request_leave succ ∷ finish_leave succ false true ∷ []) ≢ held
  unfolding lock_of
  asked_back h = elim (Bool-cases (succ.handle == v.handle)) [
    | inl e ↦ given_back_not_held (peers.finish_leave succ false true) (rw e at h)
    | inr e ↦ cc (rw e at h)
  ]

  pub granted_request :
      peers.request_to_leave succ self ≡ none
      → lock_of peers self v free (request_leave succ ∷ [])
        ≡ (if succ.handle == v.handle then held else free)
  unfolding lock_of taken_by
  granted_request asked = rw asked refl
