-- ===== src/Tun/Server/Guard.antt =====
-- Who may publish: what the hostname check of a handler protects.
use specter.Prelude.{
  ℕ, ◌≤◌, ◌≡◌, refl, ◌∙◌, inl, inr, Bool, true, false, List, map, Bytes, bytes_eq, Option, length,
  ltb, Bool-cases, if◌then◌else◌, arith,
}
use specter.Prelude.Int.{ℤ}
use specter.Errors.{Error, Result, ok, err}
use specter.Containers.{member}
use specter.Tun.Keys.{key_bytes, key_bytes_injective, client_hostnames, client_lease}
use specter.Tun.Identity.{Node, Caller, Authenticated, extract_authenticated}
use specter.Tun.Messages.{TunnelDestination, Encoders}
use specter.Tun.Kv.{
  Entry, World, Network, Fate, answered, refused, lost, outcome, call, prefix_contains, acquire,
  release, released, under_lease, with_lease, then_, all, pure, fail,
}
use specter.Tun.Kv.Results.{length-values, length-all, length-map}
use specter.Tun.Changes.{
  Relation, IsFrame, Kept, Keeps, Kept-trans, call-Keeps, then-Keeps, LeaseOnly, LeaseOnly-IsFrame,
}
use specter.Tun.Server.{
  require_registered, on_error, wrap_error_kv, publish_leased, publish_requested, publish_tunnel,
  publish_all, lookup_all, lookup_job, unique_nodes, lease_ttl, num_redundant_links,
}
use specter.Tun.Server.Frame.{
  Published, same, leased, Published-IsFrame, read-Keeps, on_error_keeps, lookup_all-Keeps,
  publish_all-Keeps,
}

abbrev pub Registered : Bytes → Bytes → World → Type 0
Registered token hostname w =
    member hostname (w.keys (key_bytes (client_hostnames token))).children ≡ true

-- Leases alone change the key of the lease.
module _ ⦃n : Network⦄ (lease : Bytes) where
  pub acquire-Keeps : (ttl : ℤ) → Keeps (LeaseOnly lease) (acquire lease ttl)
  acquire-Keeps ttl = call-Keeps (LeaseOnly-IsFrame lease) lease _ (λ now e. inl refl)

  pub release-Keeps : (token : ℕ) → Keeps (LeaseOnly lease) (release lease token)
  release-Keeps token = call-Keeps (LeaseOnly-IsFrame lease) lease _ (λ now e. inl refl)

-- A lease key is no other key.
pub lease-ne-hostnames :
    (a b : Bytes) → key_bytes (client_hostnames a) ≡ key_bytes (client_lease b) → ⊥
lease-ne-hostnames a b h = cc (key_bytes_injective (client_hostnames a) (client_lease b) h)

pub Registered-before :
    (token hostname : Bytes) (w w' : World)
    → Kept (LeaseOnly (key_bytes (client_lease token))) w w'
    → Registered token hostname w'
    → Registered token hostname w
Registered-before token hostname w w' h r = elim (h (key_bytes (client_hostnames token))) [
  | inl e ↦ absurd (lease-ne-hostnames token token e)
  | inr e ↦ rw e r
]

module _ ⦃n : Network⦄ ⦃c : Encoders⦄ where
  answer_registered :
      (wrap : Error → Error) (fate : Fate) (key : Bytes) (w : World) (e : Entry) (b : Bool)
      → (u : Unit {0})
      → (then_
          (on_error wrap (outcome fate key w (e, ok b)))
          (λ b. if b then pure tt else fail (Error.twirp "hostname is not registered"))).1
        ≡ ok u
      → b ≡ true
  unfolding then_ on_error outcome
  answer_registered wrap answered key w e true u h = refl
  answer_registered wrap answered key w e false u h = cc
  answer_registered wrap (refused f) key w e b u h = cc
  answer_registered wrap (lost f) key w e b u h = cc

  pub require_registered_lem :
      (token hostname : Bytes) (w : World) (u : Unit {0})
      → (require_registered token hostname w).1 ≡ ok u
      → Registered token hostname w
  unfolding require_registered call
  require_registered_lem token hostname w u h =
      answer_registered wrap_error_kv (n.fate w.calls) _ w _ _ u h

  branch-Keeps :
      {Holds : Relation} (frame : IsFrame Holds) (b : Bool)
      → Keeps Holds (if b then pure tt else fail (Error.twirp "hostname is not registered"))
  branch-Keeps frame true w = λ k. frame.stays k (w.keys k)
  branch-Keeps frame false w = λ k. frame.stays k (w.keys k)

  pub require-Keeps :
      {Holds : Relation} (frame : IsFrame Holds) (token hostname : Bytes)
      → Keeps Holds (require_registered token hostname)
  unfolding require_registered
  require-Keeps frame token hostname w =
      let key = key_bytes (client_hostnames token) in
      then-Keeps frame w (on_error wrap_error_kv (prefix_contains key hostname w)) _
        (on_error_keeps frame wrap_error_kv w _
          (read-Keeps frame key (λ e. ok (member hostname e.children)) w))
        (λ b. branch-Keeps frame b)

  -- What PublishTunnel may do: refuse a caller that it cannot authenticate; refuse, with nothing
  -- changed but the lease of the caller; or, for a hostname that the caller has registered, also
  -- write routes to the caller in the slots of the hostname.
  pub data PublishOutcome (caller : Caller) (hostname : Bytes) (w : World)
      : World × Result (List Node) → Type 0 where
    unauthenticated :
        (e : Error)
        → extract_authenticated caller ≡ err e
        → PublishOutcome caller hostname w (w, err e)
    denied :
        (token : Bytes) (client : Node) (w' : World) (e : Error)
        → extract_authenticated caller ≡ ok (token, client)
        → Kept (LeaseOnly (key_bytes (client_lease token))) w w'
        → PublishOutcome caller hostname w (w', err e)
    allowed :
        (token : Bytes) (client : Node) (w' : World) (r : Result (List Node))
        → extract_authenticated caller ≡ ok (token, client)
        → Registered token hostname w
        → Kept (Published (key_bytes (client_lease token)) client hostname 1 4) w w'
        → PublishOutcome caller hostname w (w', r)

  pub length-lookup_all :
      (requested : List Node) (w : World) {dsts : List TunnelDestination}
      → (lookup_all requested w).1 ≡ ok dsts
      → length dsts ≡ length requested
  unfolding lookup_all
  length-lookup_all requested w h =
      length-values (all (map lookup_job requested) w).1 h
      ∙ length-all (map lookup_job requested) w
      ∙ length-map lookup_job requested

  module _ (caller : Caller) (token : Bytes) (client : Node) (hostname : Bytes)
      (auth : extract_authenticated caller ≡ ok (token, client)) where
    abbrev lease : Bytes
    lease = key_bytes (client_lease token)

    abbrev routes : IsFrame (Published lease client hostname 1 4)
    routes = Published-IsFrame lease client hostname 1 4

    weaken :
        (w w' : World)
        → Kept (LeaseOnly lease) w w'
        → Kept (Published lease client hostname 1 4) w w'
    weaken w w' h k = elim (h k) [ inl e ↦ leased e | inr e ↦ same e ]

    looked_up_keeps :
        (requested : List Node)
        → length requested ≤ 3
        → (w w' : World) (r : Result (List TunnelDestination))
        → Kept (Published lease client hostname 1 4) w w'
        → ((dsts : List TunnelDestination) → r ≡ ok dsts → length dsts ≡ length requested)
        → Kept
            (Published lease client hostname 1 4)
            w
            (then_ (w', r) (publish_all client hostname)).0
    unfolding then_
    looked_up_keeps requested h w w' (err e) k m = k
    looked_up_keeps requested h w w' (ok dsts) k m =
        Kept-trans routes w w' (publish_all client hostname dsts w').0 k
          (publish_all-Keeps lease client hostname dsts (omega (arith, m dsts refl)) w')

    published_keeps :
        (requested : List Node)
        → length requested ≤ 3
        → (w : World)
        → Kept
            (Published lease client hostname 1 4)
            w
            (then_ (lookup_all requested w) (publish_all client hostname)).0
    published_keeps requested h w =
        let (w', r) = lookup_all requested w in
        looked_up_keeps requested h w w' r (lookup_all-Keeps routes requested w)
          (λ dsts e. length-lookup_all requested w e)

    -- From before the lease was taken until after it is given back.
    checked_outcome :
        (requested : List Node)
        → length requested ≤ 3
        → (t : ℕ) (w v : World) (r : World × Result (Unit {0})) → Kept (LeaseOnly lease) w v
        → Kept (LeaseOnly lease) v r.0
        → ((u : Unit {0}) → r.1 ≡ ok u → Registered token hostname v)
        → PublishOutcome caller hostname w (
            released lease t
              (then_ r (λ u w'. then_ (lookup_all requested w') (publish_all client hostname))))
    unfolding then_ released
    checked_outcome requested h t w v (w', err e) k l reg =
        let before = Kept-trans (LeaseOnly-IsFrame lease) w v w' k l in
        denied token client (release lease t w').0 e auth (
          Kept-trans (LeaseOnly-IsFrame lease) w w' (release lease t w').0 before
            (release-Keeps lease t w'))
    checked_outcome requested h t w v (w', ok u) k l reg =
        let before = Kept-trans (LeaseOnly-IsFrame lease) w v w' k l in
        let (w'', r) = then_ (lookup_all requested w') (publish_all client hostname) in
        let after =
          Kept-trans routes w w' w'' (weaken w w' before) (published_keeps requested h w') in
        allowed token client (release lease t w'').0 r auth
          (Registered-before token hostname w v k (reg u refl))
          (Kept-trans routes w w'' (release lease t w'').0 after
            (weaken w'' (release lease t w'').0 (release-Keeps lease t w'')))

    leased_outcome :
        (requested : List Node)
        → length requested ≤ 3
        → (w : World) (r : World × Result ℕ) → Kept (LeaseOnly lease) w r.0
        → PublishOutcome caller hostname w
            (under_lease lease wrap_error_kv (publish_leased token client hostname requested) r)
    unfolding under_lease publish_leased
    leased_outcome requested h w (w', err e) k = denied token client w' (wrap_error_kv e) auth k
    leased_outcome requested h w (w', ok t) k =
        checked_outcome requested h t w w' (require_registered token hostname w') k
          (require-Keeps (LeaseOnly-IsFrame lease) token hostname w')
          (require_registered_lem token hostname w')

    requested_outcome :
        (requested : List Node) (w : World)
        → PublishOutcome caller hostname w (publish_requested token client hostname requested w)
    unfolding publish_requested with_lease
    requested_outcome requested w = elim (Bool-cases (ltb num_redundant_links (length requested))) [
      | inl many ↦ rw many (denied token client w _ auth (λ k. inr refl))
      | inr fits ↦ rw fits (elim (Bool-cases (ltb (length requested) 1)) [
        | inl few ↦ rw few (denied token client w _ auth (λ k. inr refl))
        | inr some_ ↦ rw some_ (
            leased_outcome requested (ground arith) w (acquire lease lease_ttl w)
              (acquire-Keeps lease lease_ttl w))
      ])
    ]

  authenticated_outcome :
      (caller : Caller) (hostname : Bytes) (servers : List (Option Node)) (w : World)
      (a : Result Authenticated)
      → extract_authenticated caller ≡ a
      → PublishOutcome caller hostname w
          (then_ (w, a) (λ auth. publish_requested auth.0 auth.1 hostname (unique_nodes servers)))
  unfolding then_
  authenticated_outcome caller hostname servers w (err e) h = unauthenticated e h
  authenticated_outcome caller hostname servers w (ok (token, client)) h =
      requested_outcome caller token client hostname h (unique_nodes servers) w

  -- PublishTunnel, whatever becomes of its calls to the ring, ends in one of these outcomes: it
  -- fails, the caller is not authenticated and nothing changes; it fails and no key changes but
  -- that of the caller's lease; or the caller had registered the hostname, and no key changes
  -- but that of the caller's lease and the three slots of the hostname, a changed one of which
  -- gets a route to the caller for the hostname.
  pub publish_tunnel-Guarded :
      (caller : Caller) (hostname : Bytes) (servers : List (Option Node)) (w : World)
      → PublishOutcome caller hostname w (publish_tunnel caller hostname servers w)
  unfolding publish_tunnel
  publish_tunnel-Guarded caller hostname servers w =
      authenticated_outcome caller hostname servers w (extract_authenticated caller) refl
