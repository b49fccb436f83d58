-- ===== src/Config/Convergence.antt =====
-- config/{sync,codec,store}.go: how an exchange of two servers ends.
use specter.Prelude.{◌≡◌, refl, ◌⊎◌, true, inl, inr, Bytes, bytes_eq}
use specter.Errors.{Error, Result, ok, err}
use specter.Config.{Documents, Encoding, err_durability_uncertain}
use specter.Config.Store.{unsure, snapshot}
use specter.Config.Writes.{saved, refused, uncertain}
use specter.Config.Sync.{
  Json, Side, Delivery, unsent, unanswered, delivered, internal, received, syncer_snapshot,
  response, respond, handle_decoded, handle_exchange, merge_decoded, merge_answer, finished,
  exchange, exchange_from, sync,
}
use specter.Config.Order.{IsTable}
use specter.Config.Merges.{
  write_records-IsTable, Merged, MergeWhy, merge-Merged, Both, told, from_peer, answer_back,
}
use specter.Config.Snapshots.{NoSnapshot, Snapped, snapped, no_snapshot, syncer_snapshot-Snapped}

module _ ⦃c : Encoding⦄ ⦃j : Json⦄ where
  -- How an exchange of two servers ends.
  pub data Exchanged (d : Delivery) (own peer : Side) (a b : Documents)
      : (Documents × Documents) × Result (Unit {0}) → Type 0 where
    converged :
        {a' b' : Documents}
        → d ≡ delivered
        → Both a b a'
        → Both a b b'
        → Exchanged d own peer a b ((a', b'), ok tt)
    not_started : {e : Error} → NoSnapshot own a e → Exchanged d own peer a b ((a, b), err e)
    not_sent : {e : Error} → d ≡ unsent e → Exchanged d own peer a b ((a, b), err e)
    not_answered :
        {b' : Documents} {e : Error}
        → d ≡ unanswered e
        → (b' ≡ b) ⊎ Both a b b'
        → Exchanged d own peer a b ((a, b'), err e)
    peer_refused :
        {e : Error}
        → d ≡ delivered
        → MergeWhy peer.merging b (snapshot a) e
        → Exchanged d own peer a b ((a, b), err (internal e))
    peer_uncertain :
        {b' : Documents}
        → d ≡ delivered
        → peer.merging.commit ≡ unsure true
        → Both a b b'
        → Exchanged d own peer a b ((a, b'), err (internal err_durability_uncertain))
    peer_silent :
        {b' : Documents} {e : Error}
        → d ≡ delivered
        → NoSnapshot peer b' e
        → Both a b b'
        → Exchanged d own peer a b ((a, b'), err (internal e))
    own_refused :
        {b' : Documents} {e : Error}
        → d ≡ delivered
        → Both a b b'
        → MergeWhy own.merging a (snapshot b') e
        → Exchanged d own peer a b ((a, b'), err e)
    own_uncertain :
        {a' b' : Documents}
        → d ≡ delivered
        → Both a b b'
        → own.merging.commit ≡ unsure true
        → Both a b a'
        → Exchanged d own peer a b ((a', b'), err err_durability_uncertain)

module _ ⦃c : Encoding⦄ ⦃j : Json⦄ (own peer : Side) (a b : Documents) (h : IsTable a)
    (h' : IsTable b) where
  told_peer : Both a b (told a b)
  told_peer = from_peer a b h

  told_back : Both a b (told (told a b) a)
  told_back = answer_back a b (told a b) (write_records-IsTable (snapshot a) b h') told_peer

  module _ (d : Delivery) (arrives : d ≡ delivered) where
    after_answer :
        (r : Documents × Result (Unit {0}))
        → Merged own.merging a (snapshot (told a b)) r
        → Exchanged d own peer a b ((r.0, told a b), r.1)
    after_answer _ (saved g s v) = converged arrives told_back told_peer
    after_answer _ (refused why) = own_refused arrives told_peer why
    after_answer _ (uncertain g s v u) = own_uncertain arrives told_peer u told_back

    answer-Exchanged :
        (answer : Result Bytes)
        → Snapped peer (told a b) answer
        → Exchanged d own peer a b (finished own.merging a (told a b, response answer))
    unfolding finished response merge_answer merge_decoded
    answer-Exchanged _ (no_snapshot why) = peer_silent arrives why told_peer
    answer-Exchanged _ (snapped {x} s) =
        rw s.decoded (after_answer _ (merge-Merged own.merging (snapshot (told a b)) a s.valid))

    respond-Exchanged :
        (r : Documents × Result (Unit {0}))
        → Merged peer.merging b (snapshot a) r
        → Exchanged d own peer a b (finished own.merging a (respond peer r))
    unfolding respond finished merge_answer
    respond-Exchanged _ (saved g s v) = answer-Exchanged _ (syncer_snapshot-Snapped peer (told a b))
    respond-Exchanged _ (refused why) = peer_refused arrives why
    respond-Exchanged _ (uncertain g s v u) = peer_uncertain arrives u told_peer

  respond_documents :
      (r : Documents × Result (Unit {0}))
      → Merged peer.merging b (snapshot a) r
      → ((respond peer r).0 ≡ b) ⊎ Both a b (respond peer r).0
  unfolding respond
  respond_documents _ (saved g s v) = inr told_peer
  respond_documents _ (refused why) = inl refl
  respond_documents _ (uncertain g s v u) = inr told_peer

  delivered-Exchanged :
      (d : Delivery) (r : Documents × Result (Unit {0}))
      → Merged peer.merging b (snapshot a) r
      → Exchanged d own peer a b (finished own.merging a (received d b (respond peer r)))
  unfolding received finished merge_answer
  delivered-Exchanged (unsent e) r m = not_sent refl
  delivered-Exchanged (unanswered e) r m = not_answered refl (respond_documents r m)
  delivered-Exchanged delivered r m = respond-Exchanged delivered refl r m

  from-Exchanged :
      (d : Delivery) (r : Result Bytes)
      → Snapped own a r
      → Exchanged d own peer a b (exchange_from d own peer a b r)
  unfolding exchange_from exchange handle_exchange handle_decoded
  from-Exchanged d _ (no_snapshot why) = not_started why
  from-Exchanged d _ (snapped s) =
      rw s.decoded (delivered-Exchanged d _ (merge-Merged peer.merging (snapshot a) b s.valid))

-- Where the documents of two servers stand under their names, each name once, a round of
-- synchronisation with one peer ends in one of these outcomes: request and answer are delivered,
-- it succeeds, and under every name both servers have the newer of the two versions; or it fails
-- and the first server is as before, because it has no snapshot to send, because the request is
-- not delivered (the peer is as before), because the answer is not (the peer is as before or has
-- the newer versions), because the peer refuses the merge (the peer is as before), because the
-- Commit of the peer fails but kept the merge, or because the peer has merged but has no
-- snapshot to answer with; or the peer has merged and the merge of the first server is refused,
-- which leaves it as before, or its Commit fails but kept the merge. A server has no snapshot
-- only if the database gives no connection or no rows, or its documents are not valid, too large
-- or not written as text; it refuses a merge only if a step of its database fails, or its stored
-- documents or the union are not valid or too large.
pub exchange-Exchanged :
    ⦃c : Encoding⦄ ⦃j : Json⦄ (d : Delivery) (own peer : Side) (a b : Documents)
    → IsTable a
    → IsTable b
    → Exchanged d own peer a b (sync d own peer a b)
unfolding sync
exchange-Exchanged d own peer a b h h' =
    from-Exchanged own peer a b h h' d (syncer_snapshot own a) (syncer_snapshot-Snapped own a)
