-- ===== src/Tun/Server.antt =====
-- tun/server/client_rpc.go and resolve.go: what clients ask of a tunnel server, as calls to the
-- keys of the ring. Each handler takes the caller and the request.
pub mod Frame
pub mod Guard
pub mod Reached
pub mod Withdrawal
use Prim.Native.String.{String}
use specter.Prelude.{
  ℕ, zero, suc, ◌+◌, ◌*◌, Bool, true, false, not, ◌||◌, ◌≡◌, Option, none, some, List, [], ◌∷◌,
  ◌++◌, map, Bytes, bytes_eq, ◌=?◌, length, ltb, ◌==◌, somes, if◌then◌else◌,
}
use specter.Prelude.Int.{ℤ, pos}
use specter.Errors.{Error, Result, ok, err, plain, wrapped}
use specter.Containers.{member}
use specter.Kv.Lease.{second}
use specter.Tun.Keys.{
  Key, key_bytes, destination_by_chord, destination_by_tunnel, routing, client_token,
  client_hostnames, client_lease, custom_hostname,
}
use specter.Tun.Identity.{Node, Caller, Authenticated, extract_authenticated, unauthenticated}
use specter.Tun.Messages.{TunnelRoute, TunnelDestination, CustomHostname, Encoders, address_of}
use specter.Tun.Kv.{
  M, World, Network, pure, fail, ◌>>=◌, ◌>>◌, put, get, delete, prefix_append, prefix_list,
  prefix_contains, prefix_remove, with_lease, all, values,
}

-- NumRedundantLinks
abbrev pub num_redundant_links : ℕ
num_redundant_links = 3

-- rpc.WrapErrorKV, and twirp errors with the cause as their text.
abbrev pub wrap_error_kv : Error → Error
wrap_error_kv e = wrapped "kv" e

-- What a computation outside of the ring gives.
abbrev pub lift : {A : Type 0} → Result A → M A
lift r w = (w, r)

-- The handler for an error of a part.
unfoldable pub on_error : {A : Type 0} → (Error → Error) → World × Result A → World × Result A
on_error wrap (w, err e) = (w, err (wrap e))
on_error wrap (w, ok a) = (w, ok a)

abbrev pub mapped : {A : Type 0} → (Error → Error) → M A → M A
mapped wrap m w = on_error wrap (m w)

-- retrier.Do: after an error another attempt, so many times, and the last error.
unfoldable pub otherwise : {A : Type 0} → World × Result A → M A → World × Result A
otherwise (w, ok a) again = (w, ok a)
otherwise (w, err e) again = again w

unfoldable pub retried : {A : Type 0} → ℕ → M A → M A
retried zero m w = m w
retried (suc n) m w = otherwise (m w) (retried n m)

-- uniqueNodes, with the addresses seen so far.
unfoldable pub unique_from : List Bytes → List (Option Node) → List Node
unique_from seen [] = []
unique_from seen (none ∷ nodes) = unique_from seen nodes
unique_from seen (some n ∷ nodes) =
    let old = unique_from seen nodes in
    let new = n ∷ unique_from (n.address ∷ seen) nodes in if member n.address seen then old else new

unfoldable pub unique_nodes : List (Option Node) → List Node
unfolding unique_from
unique_nodes nodes = unique_from [] nodes

abbrev pub lease_ttl : ℤ
lease_ttl = pos (30 * second)

-- A TunnelServer with its own nodes.
pub record Server : Type 0 where
  pub chord_identity : Node
  pub tunnel_identity : Node

-- The route that a job of PublishTunnel writes.
unfoldable pub bundle : Node → Bytes → TunnelDestination → TunnelRoute
bundle verified_client hostname dst = record {
  client_destination = some verified_client;
  chord_destination = dst.chord;
  tunnel_destination = dst.tunnel;
  hostname = hostname;
}

-- A Put that fails is logged, and the node not published.
unfoldable pub published_if :
    TunnelDestination → World × Result (Unit {0}) → World × Result (Option Node)
published_if dst (w, err e) = (w, ok none)
published_if dst (w, ok done) = (w, ok dst.tunnel)

unfoldable pub non_empty : List Node → Result (List Node)
non_empty [] = err (Error.twirp "unable to publish any routes")
non_empty (v ∷ vs) = ok (v ∷ vs)

unfoldable pub published_nodes : Result (List (Option Node)) → Result (List Node)
published_nodes (err e) = err (wrapped "internal" e)
published_nodes (ok nodes) = non_empty (somes nodes)

module _ ⦃n : Network⦄ ⦃c : Encoders⦄ where
  unfoldable pub decode_destination : Bytes → Result TunnelDestination
  decode_destination [] = err (plain "no destination found with key")
  decode_destination (b ∷ buf) = elim (c.unmarshal_destination (b ∷ buf)) [
    | err e ↦ err (wrapped "tunnel destination decode failure" e)
    | ok dst ↦ ok dst
  ]

  -- lookupDestination
  unfoldable pub lookup_destination : Bytes → M TunnelDestination
  lookup_destination key = do buf ← get key; lift (decode_destination buf)

  -- publishDestinations, while its context lasts.
  unfoldable pub publish_destinations : Server → M (Unit {0})
  publish_destinations s = do
    buf ← lift (
        c.marshal_destination
          (record { chord = some s.chord_identity; tunnel = some s.tunnel_identity }))
    retried 2 (put (key_bytes (destination_by_chord s.chord_identity.address)) buf)
    retried 2 (put (key_bytes (destination_by_tunnel s.tunnel_identity.address)) buf)

  -- unpublishDestinations
  unfoldable pub unpublish_destinations : Server → M (Unit {0})
  unpublish_destinations s = do
    delete (key_bytes (destination_by_chord s.chord_identity.address))
    delete (key_bytes (destination_by_tunnel s.tunnel_identity.address))

  -- saveClientToken
  unfoldable pub save_client_token : Bytes → Node → M (Unit {0})
  save_client_token token client = do
    val ← lift (c.marshal_node client)
    put (key_bytes (client_token token)) val

  unfoldable pub decode_client : Bytes → Result Node
  decode_client [] = err (plain "no existing client found with given token")
  decode_client (b ∷ val) = c.unmarshal_node (b ∷ val)

  -- getClientByToken
  unfoldable pub get_client_by_token : Bytes → M Node
  get_client_by_token token = do
    val ← get (key_bytes (client_token token))
    lift (decode_client val)

  -- The old format of a client is written anew, whether or not that succeeds.
  unfoldable pub upgrade_client : Bytes → Node → Node → M (Unit {0})
  upgrade_client token verified_client cli w =
      if (cli.address =? []) || not cli.rendezvous
      then ((save_client_token token verified_client w).0, ok tt)
      else (w, ok tt)

  -- verifyClientIdentity, for the methods that need a registered owner.
  unfoldable pub verify_client_identity : Caller → M (Unit {0})
  verify_client_identity caller = do
    auth ← lift (extract_authenticated caller)
    let (token, verified_client) = auth
    cli ← mapped (wrapped "failed to verify client token") (get_client_by_token token)
    upgrade_client token verified_client cli

  -- RegisterIdentity, where the datagram to the client has failed or not.
  unfoldable pub register_identity : Option Error → Caller → M (Unit {0})
  register_identity (some e) caller = do
    auth ← lift (extract_authenticated caller)
    fail (Error.twirp "client is not connected")
  register_identity none caller = do
    auth ← lift (extract_authenticated caller)
    let (token, verified_client) = auth
    mapped wrap_error_kv (save_client_token token verified_client)

  -- GenerateHostname, for the words that the generator gave.
  unfoldable pub generate_hostname : Bytes → Caller → M Bytes
  generate_hostname hostname caller = do
    auth ← lift (extract_authenticated caller)
    let (token, verified_client) = auth
    mapped wrap_error_kv (prefix_append (key_bytes (client_hostnames token)) hostname)
    pure hostname

  -- RegisteredHostnames
  unfoldable pub registered_hostnames : Caller → M (List Bytes)
  registered_hostnames caller = do
    auth ← lift (extract_authenticated caller)
    let (token, verified_client) = auth
    mapped wrap_error_kv (prefix_list (key_bytes (client_hostnames token)))

  -- The check that a hostname belongs to a client.
  unfoldable pub require_registered : Bytes → Bytes → M (Unit {0})
  require_registered token hostname = do
    b ← mapped wrap_error_kv (prefix_contains (key_bytes (client_hostnames token)) hostname)
    if b then pure tt else fail (Error.twirp "hostname is not registered")

  -- A lookup of PublishTunnel.
  unfoldable pub lookup_job : Node → M TunnelDestination
  lookup_job server =
      mapped wrap_error_kv (lookup_destination (key_bytes (destination_by_tunnel server.address)))

  -- The lookups of PublishTunnel.
  unfoldable pub lookup_all : List Node → M (List TunnelDestination)
  lookup_all requested w = let (w', rs) = all (map lookup_job requested) w in (w', values rs)

  unfoldable pub publish_job : Node → Bytes → ℕ → TunnelDestination → M (Option Node)
  publish_job verified_client hostname num dst = do
    val ← lift (c.marshal_route (bundle verified_client hostname dst))
    λ w. published_if dst (put (key_bytes (routing hostname num)) val w)

  unfoldable pub publish_jobs : Node → Bytes → ℕ → List TunnelDestination → List (M (Option Node))
  publish_jobs verified_client hostname num [] = []
  publish_jobs verified_client hostname num (dst ∷ dsts) =
      publish_job verified_client hostname num dst
      ∷ publish_jobs verified_client hostname (suc num) dsts

  unfoldable pub publish_all : Node → Bytes → List TunnelDestination → M (List Node)
  publish_all verified_client hostname destinations w =
      let (w', rs) = all (publish_jobs verified_client hostname 1 destinations) w in
      (w', published_nodes (values rs))

  -- PublishTunnel under the lease of the client.
  unfoldable pub publish_leased : Bytes → Node → Bytes → List Node → M (List Node)
  publish_leased token verified_client hostname requested = do
    require_registered token hostname
    destinations ← lookup_all requested
    publish_all verified_client hostname destinations

  -- PublishTunnel for an authenticated client.
  unfoldable pub publish_requested : Bytes → Node → Bytes → List Node → M (List Node)
  publish_requested token verified_client hostname requested =
      if ltb num_redundant_links (length requested)
      then fail (Error.twirp "too many requested endpoints")
      else if ltb (length requested) 1
      then fail (Error.twirp "no servers specified in request")
      else with_lease (key_bytes (client_lease token)) lease_ttl wrap_error_kv
          (publish_leased token verified_client hostname requested)

  -- PublishTunnel
  unfoldable pub publish_tunnel : Caller → Bytes → List (Option Node) → M (List Node)
  publish_tunnel caller hostname servers = do
    auth ← lift (extract_authenticated caller)
    publish_requested auth.0 auth.1 hostname (unique_nodes servers)

  unfoldable pub unpublish_jobs : Bytes → ℕ → ℕ → List (M (Unit {0}))
  unpublish_jobs hostname num zero = []
  unpublish_jobs hostname num (suc left) =
      delete (key_bytes (routing hostname num)) ∷ unpublish_jobs hostname (suc num) left

  unfoldable pub delete_routes : Bytes → M (List (Unit {0}))
  delete_routes hostname w =
      let (w', rs) = all (unpublish_jobs hostname 1 num_redundant_links) w in (w', values rs)

  -- unadvertiseTunnel
  unfoldable pub unadvertise_tunnel : Bytes → Bytes → M (Unit {0})
  unadvertise_tunnel token hostname = do
    require_registered token hostname
    done ← mapped (wrapped "internal") (delete_routes hostname)
    pure tt

  -- UnpublishTunnel
  unfoldable pub unpublish_tunnel : Caller → Bytes → M (Unit {0})
  unpublish_tunnel caller hostname = do
    auth ← lift (extract_authenticated caller)
    let (token, verified_client) = auth
    with_lease (key_bytes (client_lease token)) lease_ttl
        (wrapped "error acquiring lease for unpublishing tunnel")
        (unadvertise_tunnel token hostname)
