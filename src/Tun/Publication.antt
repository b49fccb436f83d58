-- ===== src/Tun/Publication.antt =====
-- PublishTunnel, UnpublishTunnel and a lookup of the hostname afterwards, at any server of the
-- ring.
use specter.Prelude.{
  ℕ, ◌≡◌, ◌≢◌, refl, ap, ◌∙◌, none, some, List, [], ◌∷◌, Option, Bytes, All, length,
}
use specter.Errors.{ok}
use specter.Tun.Label.{parse_ephemeral_label}
use specter.Tun.Identity.{Node, Caller, extract_authenticated}
use specter.Tun.Messages.{TunnelRoute, TunnelDestination, Encoders}
use specter.Tun.Kv.{World, Network}
use specter.Tun.Server.{Server, bundle, publish_tunnel, unpublish_tunnel}
use specter.Tun.Server.Reached.{Reached, publish_reached}
use specter.Tun.Server.Withdrawal.{IsWithdrawn, unpublish-IsWithdrawn}
use specter.Tun.Routes.{
  Loaded, found, decode_route, load_registered, HomeLookup, route_cache_loader,
  err_destination_not_found,
}
use specter.Tun.Routes.Lookup.{Has, Answering, load_found, load_absent}

-- The routes have one to the client at the node.
pub record Routed (client : Node) (hostname : Bytes) (l : Loaded) (v : Node) : Type 0 where
  pub dst : TunnelDestination
  pub at_node : dst.tunnel ≡ some v
  pub has : Has (bundle client hostname dst) l.routes

decoded :
    ⦃c : Encoders⦄ (r : TunnelRoute) (val : Bytes)
    → c.unmarshal_route val ≡ ok r
    → val ≢ []
    → decode_route val ≡ ok (found r (length val))
unfolding decode_route
decoded r [] h filled = absurd (filled refl)
decoded r (b ∷ val) h filled = rw (h, decode_route)

module _ ⦃n : Network⦄ ⦃c : Encoders⦄ (other : Network) (answering : Answering other) where
  reached_found :
      (s : Server) (client : Node) (hostname : Bytes) (w : World) (v : Node)
      → Reached client hostname w 1 4 v
      → let l = (load_registered ⦃n = other⦄ s hostname w).1 in
        (l.failure ≡ none) × Routed client hostname l v
  unfolding bundle
  reached_found s client hostname w v r =
      let route = bundle client hostname r.dst in
      let (fine, has) =
        load_found ⦃n = other⦄ answering hostname s r.slot w route (length r.val) r.from r.below (
          ap decode_route r.stored
          ∙ decoded route r.val (c.route_back route r.val r.written)
              (c.route_filled route client r.val refl r.written)) in
      (fine, record { dst = r.dst; at_node = r.at_node; has = has })

  All-found :
      (s : Server) (client : Node) (hostname : Bytes) (w : World) (vs : List Node)
      → All (Reached client hostname w 1 4) vs
      → All (Routed client hostname (load_registered ⦃n = other⦄ s hostname w).1) vs
  All-found s client hostname w [] h = tt
  All-found s client hostname w (v ∷ vs) h =
      ((reached_found s client hostname w v h.0).1, All-found s client hostname w vs h.1)

  no_failure :
      (s : Server) (client : Node) (hostname : Bytes) (w : World) (vs : List Node)
      → All (Reached client hostname w 1 4) vs
      → vs ≢ []
      → (load_registered ⦃n = other⦄ s hostname w).1.failure ≡ none
  no_failure s client hostname w [] h filled = absurd (filled refl)
  no_failure s client hostname w (v ∷ vs) h filled = (reached_found s client hostname w v h.0).0

  loader_registered :
      (s : Server) (id : ℕ) (search : HomeLookup) (hostname : Bytes) (w : World)
      → parse_ephemeral_label hostname ≡ none
      → route_cache_loader ⦃n = other⦄ s id search hostname w
        ≡ load_registered ⦃n = other⦄ s hostname w
  unfolding route_cache_loader
  loader_registered s id search hostname w h = rw h refl

  -- If PublishTunnel by an authenticated caller returns some nodes, whatever becomes of the
  -- calls to the ring, then with nothing changed in the ring after it a load of the hostname at
  -- any server, all of whose calls the ring answers, does not fail and has for each of these
  -- nodes a route to the client for the hostname at that node, and there is such a node; for a
  -- hostname that is no ephemeral label.
  pub publish_tunnel-Found :
      (caller : Caller) (token : Bytes) (client : Node) (hostname : Bytes)
      (servers : List (Option Node)) (w : World) (published : List Node) (s : Server) (id : ℕ)
      (search : HomeLookup)
      → extract_authenticated caller ≡ ok (token, client)
      → parse_ephemeral_label hostname ≡ none
      → (publish_tunnel caller hostname servers w).1 ≡ ok published
      → let w' = (publish_tunnel caller hostname servers w).0 in
        let l = (route_cache_loader ⦃n = other⦄ s id search hostname w').1 in
        (l.failure ≡ none) × All (Routed client hostname l) published × (published ≢ [])
  publish_tunnel-Found caller token client hostname servers w published s id search auth plain h =
      let w' = (publish_tunnel caller hostname servers w).0 in
      let (reached, filled) =
        publish_reached client hostname caller token servers w published auth h in
      rw (loader_registered s id search hostname w' plain) (
        no_failure s client hostname w' published reached filled,
        All-found s client hostname w' published reached,
        filled,
      )

  -- If UnpublishTunnel by an authenticated caller succeeds, the caller had registered the
  -- hostname, its three slots have no value, no other key has changed but that of the lease and
  -- a slot has lost only its value, and with nothing changed in the ring after it a load of the
  -- hostname at any server, all of whose calls the ring answers, gives ErrDestinationNotFound;
  -- for a hostname that is no ephemeral label.
  pub unpublish_tunnel-Absent :
      (caller : Caller) (token : Bytes) (client : Node) (hostname : Bytes) (w : World) (s : Server)
      (id : ℕ) (search : HomeLookup)
      → extract_authenticated caller ≡ ok (token, client)
      → parse_ephemeral_label hostname ≡ none
      → (unpublish_tunnel caller hostname w).1 ≡ ok tt
      → let w' = (unpublish_tunnel caller hostname w).0 in
        IsWithdrawn token hostname w w'
        × ((route_cache_loader ⦃n = other⦄ s id search hostname w').1.failure
            ≡ some err_destination_not_found)
  unpublish_tunnel-Absent caller token client hostname w s id search auth plain h =
      let w' = (unpublish_tunnel caller hostname w).0 in
      let done = unpublish-IsWithdrawn token hostname caller client w tt auth h in
      (
        done,
        rw (loader_registered s id search hostname w' plain)
            (load_absent ⦃n = other⦄ answering hostname s w' done.empty),
      )
