-- ===== src/Tun/Routes.antt =====
-- tun/server/route_cache.go: how a hostname is looked up in the ring, and what the cache is given.
pub mod Lookup
use specter.Prelude.{
  ℕ, zero, suc, ◌+◌, ◌*◌, Bool, true, false, not, ◌&&◌, Option, none, some, List, [], ◌∷◌, map,
  Bytes, bytes_eq, ◌=?◌, length, ◌==◌, if◌then◌else◌,
}
use specter.VNode.{VNode}
use specter.Errors.{Error, Result, ok, err, plain}
use specter.Kv.Lease.{second}
use specter.Tun.Keys.{key_bytes, routing, destination_by_chord}
use specter.Tun.Identity.{Node}
use specter.Tun.Label.{parse_ephemeral_label, session_alias}
use specter.Tun.Messages.{TunnelRoute, TunnelDestination, Encoders, address_of}
use specter.Tun.Kv.{M, World, Network, ◌>>=◌, get, all}
use specter.Tun.Server.{Server, lift, lookup_destination, num_redundant_links}

-- routePositiveTTL, routeNegativeTTL and routeFailedTTL
abbrev pub route_positive_ttl : ℕ
route_positive_ttl = 300 * second

abbrev pub route_negative_ttl : ℕ
route_negative_ttl = 15 * second

abbrev pub route_failed_ttl : ℕ
route_failed_ttl = 5 * second

-- ErrDestinationNotFound and ErrLookupFailed of spec/tun/server.go.
abbrev pub err_destination_not_found : Error
err_destination_not_found = plain "tun: tunnel not found on specter network"

abbrev pub err_lookup_failed : Error
err_lookup_failed = plain "tun: failed to lookup tunnel on specter network"

-- What a lookup job gives that does not fail otherwise: `absent` is fs.ErrNotExist, and a route
-- comes with the length of its text.
pub data Found : Type 0 where
  absent : Found
  found : TunnelRoute → ℕ → Found

-- theine.Loaded[routesResult]
pub record Loaded : Type 0 where
  pub cost : ℕ
  pub ttl : ℕ
  pub failure : Option Error
  pub routes : List TunnelRoute

unfoldable pub count_absent : List (Result Found) → ℕ
count_absent [] = 0
count_absent (ok absent ∷ rs) = suc (count_absent rs)
count_absent (_ ∷ rs) = count_absent rs

unfoldable pub count_failed : List (Result Found) → ℕ
count_failed [] = 0
count_failed (err e ∷ rs) = suc (count_failed rs)
count_failed (_ ∷ rs) = count_failed rs

unfoldable pub total_cost : List (Result Found) → ℕ
total_cost [] = 0
total_cost (ok (found r size) ∷ rs) = size + total_cost rs
total_cost (_ ∷ rs) = total_cost rs

unfoldable pub found_routes : List (Result Found) → List TunnelRoute
found_routes [] = []
found_routes (ok (found r size) ∷ rs) = r ∷ found_routes rs
found_routes (_ ∷ rs) = found_routes rs

-- The order of the routes: one to a client of this server is less than one to a client elsewhere.
unfoldable pub is_local : Bytes → TunnelRoute → Bool
is_local address r = address_of r.tunnel_destination =? address

unfoldable pub before : Bytes → TunnelRoute → TunnelRoute → Bool
before address a b = is_local address a && not (is_local address b)

-- sort.SliceStable
unfoldable pub insert_sorted : Bytes → TunnelRoute → List TunnelRoute → List TunnelRoute
insert_sorted address r [] = r ∷ []
insert_sorted address r (x ∷ xs) =
    if before address x r then x ∷ insert_sorted address r xs else r ∷ x ∷ xs

unfoldable pub sort_routes : Bytes → List TunnelRoute → List TunnelRoute
sort_routes address [] = []
sort_routes address (r ∷ rs) = insert_sorted address r (sort_routes address rs)

-- What routeCacheLoader makes of the answers of its jobs.
unfoldable pub loaded_from : Bytes → List (Result Found) → Loaded
loaded_from address rs =
    if num_redundant_links == count_absent rs
    then record {
      cost = 8;
      ttl = route_negative_ttl;
      failure = some err_destination_not_found;
      routes = [];
    }
    else if num_redundant_links == count_absent rs + count_failed rs
    then record { cost = 16; ttl = route_failed_ttl; failure = some err_lookup_failed; routes = [] }
    else record {
      cost = total_cost rs;
      ttl = route_positive_ttl;
      failure = none;
      routes = sort_routes address (found_routes rs);
    }

-- How the search for the home node of an ephemeral label ends: no room for another search, no
-- answer in time, or the answer of FindSuccessor.
pub data HomeLookup : Type 0 where
  busy expired : HomeLookup
  successor : Result (Option VNode) → HomeLookup

failed_load : Loaded
failed_load = record {
  cost = 256;
  ttl = route_failed_ttl;
  failure = some err_lookup_failed;
  routes = [];
}

size_of : Result Bytes → ℕ
size_of (err e) = 0
size_of (ok val) = length val

module _ ⦃c : Encoders⦄ where
  unfoldable pub decode_route : Bytes → Result Found
  decode_route [] = ok absent
  decode_route (b ∷ val) = elim (c.unmarshal_route (b ∷ val)) [
    | err e ↦ err e
    | ok r ↦ ok (found r (length (b ∷ val)))
  ]

  -- The one route of an ephemeral session, at the node that its label names.
  unfoldable pub ephemeral_route : Bytes → Bytes → TunnelDestination → Loaded
  unfolding size_of
  ephemeral_route label inv dst =
      let route : TunnelRoute = record {
        client_destination =
            some
              (record { id = 0; address = session_alias inv; unknown = false; rendezvous = true });
        chord_destination = dst.chord;
        tunnel_destination = dst.tunnel;
        hostname = label;
      } in
      record {
        cost = 256 + size_of (c.marshal_route route);
        ttl = route_positive_ttl;
        failure = none;
        routes = route ∷ [];
      }

module _ ⦃n : Network⦄ ⦃c : Encoders⦄ where
  unfoldable pub route_job : Bytes → ℕ → M Found
  route_job hostname k = do val ← get (key_bytes (routing hostname k)); lift (decode_route val)

  -- The lookup jobs, from a slot on.
  unfoldable pub route_jobs : Bytes → ℕ → ℕ → List (M Found)
  route_jobs hostname k zero = []
  route_jobs hostname k (suc left) = route_job hostname k ∷ route_jobs hostname (suc k) left

  -- routeCacheLoader for a hostname that is no ephemeral label.
  unfoldable pub load_registered : Server → Bytes → World → World × Loaded
  load_registered s hostname w =
      let (w', rs) = all (route_jobs hostname 1 num_redundant_links) w in
      (w', loaded_from s.tunnel_identity.address rs)

  at_destination : Bytes → Bytes → World × Result TunnelDestination → World × Loaded
  unfolding failed_load
  at_destination label inv (w, err e) = (w, failed_load)
  at_destination label inv (w, ok dst) = (w, ephemeral_route label inv dst)

  at_home : Bytes → ℕ → Bytes → HomeLookup → World → World × Loaded
  unfolding failed_load at_destination
  at_home label home inv (successor (ok (some node))) w =
      if node.id == home
      then at_destination label inv
          (lookup_destination (key_bytes (destination_by_chord node.address)) w)
      else (
        w,
        record failed_load { ttl = route_negative_ttl; failure = some err_destination_not_found },
      )
  at_home label home inv (successor (ok none)) w =
      (w, record failed_load { ttl = route_negative_ttl; failure = some err_destination_not_found })
  at_home label home inv (successor (err e)) w = (w, failed_load)
  at_home label home inv busy w = (w, failed_load)
  at_home label home inv expired w = (w, failed_load)

  -- ephemeralRouteLoader, at a server whose node has the identifier `id`.
  unfoldable pub ephemeral_route_loader :
      Server → ℕ → HomeLookup → Bytes → ℕ → Bytes → World → World × Loaded
  unfolding at_home
  ephemeral_route_loader s id search label home inv w =
      if home == id
      then (
        w,
        ephemeral_route label inv
            (record { chord = some s.chord_identity; tunnel = some s.tunnel_identity }),
      )
      else at_home label home inv search w

  load_label : Server → ℕ → HomeLookup → Bytes → Option (ℕ × Bytes) → World → World × Loaded
  load_label s id search hostname none w = load_registered s hostname w
  load_label s id search hostname (some (home, inv)) w =
      ephemeral_route_loader s id search hostname home inv w

  -- routeCacheLoader
  unfoldable pub route_cache_loader : Server → ℕ → HomeLookup → Bytes → World → World × Loaded
  unfolding load_label
  route_cache_loader s id search hostname w =
      load_label s id search hostname (parse_ephemeral_label hostname) w
