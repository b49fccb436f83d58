-- ===== src/Chord/Node/Leave/Transfers.antt =====
-- chord/local_membership.go: what becomes of the keys of a node that leaves.
use specter.Prelude.{◌≡◌, refl, Option, none, some, List, [], ◌∷◌, Bytes}
use specter.VNode.{VNode}
use specter.Errors.{Error, Result, ok, err, wrapped}
use specter.Chord.Node.{LocalNode, Peers, Provider, Transfer}
use specter.Chord.Node.Join.{remove_sent, send_keys, send_ranged}
use specter.Chord.Node.SameButKv.{SameButKv, SameButKv-refl}
use specter.Chord.Node.Leave.{store_error, transfer_keys_downward}

module _ {S : Type 0} (p : Provider S) (peers : Peers) (succ : VNode) where
  -- All keys of the store `s` are at the successor, and `s'` is what stays.
  pub data Sent (s : S) : S → Type 0 where
    no_keys : p.range_keys 0 0 s ≡ ok [] → Sent s s
    handed :
        {k : Bytes} {keys : List Bytes} {values : List Transfer}
        → p.range_keys 0 0 s ≡ ok (k ∷ keys)
        → p.export (k ∷ keys) s ≡ ok values
        → peers.import succ (k ∷ keys) values ≡ none
        → Sent s (p.remove_keys (k ∷ keys) s).0

  -- Why the keys are not sent: they cannot be listed or exported, or the successor refuses them.
  pub data NotSent (s : S) : Error → Type 0 where
    not_listed : {e : Error} → p.range_keys 0 0 s ≡ err e → NotSent s e
    not_exported :
        {keys : List Bytes} {e : Error}
        → p.range_keys 0 0 s ≡ ok keys
        → p.export keys s ≡ err e
        → NotSent s e
    not_imported :
        {keys : List Bytes} {values : List Transfer} {e : Error}
        → p.range_keys 0 0 s ≡ ok keys
        → p.export keys s ≡ ok values
        → peers.import succ keys values ≡ some e
        → NotSent s (wrapped "storing KV to successor" e)

  pub data Transferred (n : LocalNode S) : LocalNode S × Option Error → Type 0 where
    sent : {m : LocalNode S} → SameButKv n m → Sent n.kv m.kv → Transferred n (m, none)
    not_sent : {e : Error} → NotSent n.kv e → Transferred n (n, some e)

  module _ (n : LocalNode S) where
    abbrev wrapping : Peers
    wrapping = record peers { import = λ to ks vs. store_error (peers.import to ks vs) }

    imported-Transferred :
        (k : Bytes) (keys : List Bytes) (values : List Transfer) (answer : Option Error)
        → p.range_keys 0 0 n.kv ≡ ok (k ∷ keys)
        → p.export (k ∷ keys) n.kv ≡ ok values
        → peers.import succ (k ∷ keys) values ≡ answer
        → Transferred n (elim (store_error answer) [
          | some e ↦ (n, some e)
          | none ↦ (record n { kv = (p.remove_keys (k ∷ keys) n.kv).0 }, none)
        ])
    unfolding store_error
    imported-Transferred k keys values none l x q =
        sent (record { self = refl; state = refl; surrogate = refl; predecessor = refl })
          (handed l x q)
    imported-Transferred k keys values (some e) l x q = not_sent (not_imported l x q)

    send_keys-Transferred :
        (keys : List Bytes)
        → p.range_keys 0 0 n.kv ≡ ok keys
        → Transferred n (send_keys p wrapping succ keys n)
    unfolding send_keys remove_sent
    send_keys-Transferred [] l = sent (SameButKv-refl n) (no_keys l)
    send_keys-Transferred (k ∷ keys) l = by_export (p.export (k ∷ keys) n.kv) refl
      where
        by_export :
            (r : Result (List Transfer))
            → p.export (k ∷ keys) n.kv ≡ r
            → Transferred n (elim r [
              | err e ↦ (n, some e)
              | ok values ↦ elim (wrapping.import succ (k ∷ keys) values) [
                | some e ↦ (n, some e)
                | none ↦ (record n { kv = (p.remove_keys (k ∷ keys) n.kv).0 }, none)
              ]
            ])
        by_export (err e) q = not_sent (not_exported l q)
        by_export (ok values) q =
            imported-Transferred k keys values (peers.import succ (k ∷ keys) values) l q refl

    send_ranged-Transferred :
        (r : Result (List Bytes))
        → p.range_keys 0 0 n.kv ≡ r
        → Transferred n (send_ranged p wrapping succ r n)
    unfolding send_ranged
    send_ranged-Transferred (err e) q = not_sent (not_listed q)
    send_ranged-Transferred (ok keys) q = send_keys-Transferred keys q

    pub transfer_keys_downward-Transferred : Transferred n (transfer_keys_downward p peers succ n)
    unfolding transfer_keys_downward
    transfer_keys_downward-Transferred = send_ranged-Transferred (p.range_keys 0 0 n.kv) refl
