-- ===== src/Examples/Tunnels.antt =====
-- A client that publishes a hostname at one tunnel server, and the sessions of a server.
use specter.Prelude.{◌↔◌}
use specter.Prelude.{
  ℕ, zero, suc, All, ◌≢◌, ◌+◌, ◌≡◌, refl, true, false, none, some, [], ◌∷◌, Bytes, arith, bytes_eq,
  nat_eq,
}
use specter.Prelude.Int.{pos}
use specter.Errors.{ok}
use specter.Tun.Text.{codes}
use specter.Tun.Keys.{
  Key, key_bytes, client_hostnames, destination_by_tunnel, routing, key_bytes_injective,
}
use specter.Tun.Label.{Sha, parse_ephemeral_label, print_label, ephemeral_label}
use specter.Tun.Label.RoundTrip.{ephemeral_label-Parsed}
use specter.Tun.Identity.{Node, Caller, certificate, extract_authenticated}
use specter.Tun.Kv.{Entry, Keyspace, World, Network, answered, set_entry}
use specter.Tun.Server.{Server, publish_tunnel, unpublish_tunnel}
use specter.Tun.Server.Guard.{PublishOutcome, publish_tunnel-Guarded}
use specter.Tun.Server.Withdrawal.{IsWithdrawn}
use specter.Tun.Routes.{Loaded, HomeLookup, route_cache_loader, err_destination_not_found}
use specter.Tun.Publication.{Routed, publish_tunnel-Found, unpublish_tunnel-Absent}
use specter.Tun.Sessions.{
  Session, SessionMode, ephemeral, SessionState, provisional, Registry, new_session_registry,
  reserve, activate, activation_until, dial, Step, Reach,
}
use specter.Tun.Sessions.Invariant.{Inv}
use specter.Tun.Sessions.Reachability.{Reach-Inv, Dialled, dial-Dialled}
use specter.Examples.Encoding.{plain_encoders}

instance abbrev pub network : Network
network = record { fate = λ i. answered; clock = λ i. pos (1000000000 + i) }

abbrev pub caller : Caller
caller = certificate (codes "v1:7:ab")

abbrev pub client : Node
client = record { id = 7; address = codes "ab"; unknown = false; rendezvous = true }

abbrev pub hostname : Bytes
hostname = codes "one-two"

abbrev tunnel_node : Node
tunnel_node = record { id = 1; address = codes "t:1"; unknown = false; rendezvous = false }

abbrev chord_node : Node
chord_node = record { id = 2; address = codes "c:1"; unknown = false; rendezvous = false }

abbrev no_entry : Entry
no_entry = record { simple = []; children = []; lease = 0 }

-- The client has registered the hostname, and the server has published its destination.
abbrev destination : Bytes
destination = 1 ∷ 2 ∷ 0 ∷ 0 ∷ 3 ∷ 99 ∷ 58 ∷ 49 ∷ 1 ∷ 1 ∷ 0 ∷ 0 ∷ 3 ∷ 116 ∷ 58 ∷ 49 ∷ []

abbrev pub world : World
world = record {
  keys =
      set_entry (key_bytes (client_hostnames (codes "ab")))
        (record no_entry { children = hostname ∷ [] })
        (set_entry (key_bytes (destination_by_tunnel (codes "t:1")))
          (record no_entry { simple = destination }) (λ k. no_entry));
  calls = 0;
}

abbrev server : Server
server = record { chord_identity = chord_node; tunnel_identity = tunnel_node }

pub authenticated : extract_authenticated caller ≡ ok (codes "ab", client)
unfolding extract_authenticated specter.Tun.Identity.extract_identity specter.Tun.Identity.cut
    specter.Tun.Identity.identity_of specter.Tun.Identity.parse_uint specter.Tun.Identity.must
    specter.Tun.Identity.parse_digits
authenticated = refl

published : (publish_tunnel caller hostname (some tunnel_node ∷ []) world).1 ≡ ok (tunnel_node ∷ [])
unfolding publish_tunnel extract_authenticated specter.Tun.Identity.extract_identity
    specter.Tun.Identity.cut specter.Tun.Identity.identity_of specter.Tun.Identity.parse_uint
    specter.Tun.Identity.must specter.Tun.Identity.parse_digits specter.Tun.Kv.then_
    specter.Tun.Kv.with_lease specter.Tun.Kv.under_lease specter.Tun.Kv.call specter.Tun.Kv.outcome
    specter.Tun.Kv.acquire_at specter.Tun.Kv.grant_at specter.Tun.Kv.all specter.Tun.Kv.cons_value
    specter.Tun.Kv.release_at specter.Tun.Kv.released specter.Tun.Kv.values
    specter.Tun.Server.publish_requested specter.Tun.Server.unique_nodes
    specter.Tun.Server.unique_from specter.Tun.Server.bundle specter.Tun.Server.decode_destination
    specter.Tun.Server.lookup_all specter.Tun.Server.lookup_destination
    specter.Tun.Server.lookup_job specter.Tun.Server.non_empty specter.Tun.Server.on_error
    specter.Tun.Server.publish_all specter.Tun.Server.publish_job specter.Tun.Server.publish_jobs
    specter.Tun.Server.publish_leased specter.Tun.Server.published_if
    specter.Tun.Server.published_nodes specter.Tun.Server.require_registered
    specter.Kv.Lease.duration_guard specter.Kv.Memory.Leases.acquire_check specter.Kv.Lease.next
    specter.Tun.Keys.decimal key_bytes specter.Tun.Text.take specter.Tun.Text.drop
published = refl

no_label : parse_ephemeral_label hostname ≡ none
unfolding parse_ephemeral_label specter.Tun.Label.behind specter.Tun.Label.read_label
    specter.Tun.Text.strip
no_label = refl

abbrev routes_of : Bytes → World → Loaded
routes_of hostname w = (route_cache_loader ⦃n = network⦄ server 9 HomeLookup.busy hostname w).1

publish_tunnel-Found_example :
    let w' = (publish_tunnel caller hostname (some tunnel_node ∷ []) world).0 in
    ((routes_of hostname w').failure ≡ none)
    × All (Routed client hostname (routes_of hostname w')) (tunnel_node ∷ [])
    × (tunnel_node ∷ [] ≢ [])
publish_tunnel-Found_example =
    publish_tunnel-Found network (λ i. refl) caller (codes "ab") client hostname
      (some tunnel_node ∷ []) world (tunnel_node ∷ []) server 9 HomeLookup.busy authenticated
      no_label published

publish_tunnel-Guarded_example :
    PublishOutcome caller hostname world
      (publish_tunnel caller hostname (some tunnel_node ∷ []) world)
publish_tunnel-Guarded_example =
    publish_tunnel-Guarded caller hostname (some tunnel_node ∷ []) world

withdrawn : (unpublish_tunnel caller hostname world).1 ≡ ok tt
unfolding unpublish_tunnel extract_authenticated specter.Tun.Identity.extract_identity
    specter.Tun.Identity.cut specter.Tun.Identity.identity_of specter.Tun.Identity.parse_uint
    specter.Tun.Identity.must specter.Tun.Identity.parse_digits specter.Tun.Kv.then_
    specter.Tun.Kv.with_lease specter.Tun.Kv.under_lease specter.Tun.Kv.call specter.Tun.Kv.outcome
    specter.Tun.Kv.acquire_at specter.Tun.Kv.grant_at specter.Tun.Kv.all specter.Tun.Kv.cons_value
    specter.Tun.Kv.release_at specter.Tun.Kv.released specter.Tun.Kv.values
    specter.Tun.Server.publish_requested specter.Tun.Server.unique_nodes
    specter.Tun.Server.unique_from specter.Tun.Server.bundle specter.Tun.Server.decode_destination
    specter.Tun.Server.lookup_all specter.Tun.Server.lookup_destination
    specter.Tun.Server.lookup_job specter.Tun.Server.non_empty specter.Tun.Server.on_error
    specter.Tun.Server.publish_all specter.Tun.Server.publish_job specter.Tun.Server.publish_jobs
    specter.Tun.Server.publish_leased specter.Tun.Server.published_if
    specter.Tun.Server.published_nodes specter.Tun.Server.require_registered
    specter.Kv.Lease.duration_guard specter.Kv.Memory.Leases.acquire_check specter.Kv.Lease.next
    specter.Tun.Keys.decimal key_bytes specter.Tun.Text.take specter.Tun.Text.drop
    specter.Tun.Server.unadvertise_tunnel specter.Tun.Server.delete_routes
    specter.Tun.Server.unpublish_jobs
withdrawn = refl

unpublish_tunnel-Absent_example :
    let w' = (unpublish_tunnel caller hostname world).0 in
    IsWithdrawn (codes "ab") hostname world w'
    × ((routes_of hostname w').failure ≡ some err_destination_not_found)
unpublish_tunnel-Absent_example =
    unpublish_tunnel-Absent network (λ i. refl) caller (codes "ab") client hostname world server 9
      HomeLookup.busy authenticated no_label withdrawn

key_bytes_injective_example : Key.routing hostname 1 ≡ Key.routing hostname 1
key_bytes_injective_example =
    key_bytes_injective (Key.routing hostname 1) (Key.routing hostname 1) refl

abbrev pub zeros : ℕ → Bytes
zeros zero = []
zeros (suc n) = 0 ∷ zeros n

abbrev pub sha : Sha
sha = record { sum256 = λ x. zeros 32; digest_length = λ x. refl; digest_bytes = λ x. omega arith }

ephemeral_label-Parsed_example :
    (parse_ephemeral_label (print_label 258 (zeros 16)) ≡ some (258, zeros 16))
    ↔ (print_label 258 (zeros 16) ≡ print_label 258 (zeros 16))
unfolding ephemeral_label specter.Tun.Text.take
ephemeral_label-Parsed_example =
    ephemeral_label-Parsed sha 258 [] (print_label 258 (zeros 16)) (zeros 16)
      (print_label 258 (zeros 16)) refl

-- One session of a client, attached and active.
abbrev attachment : Session
attachment = record {
  alias = codes "session:1";
  hostname = codes "e1-1";
  conn = 4;
  mode = ephemeral;
  spki = [];
  owner = [];
  grant_expiry = none;
  cert_not_after = 100;
  state = provisional;
  authorized_until = 0;
}

abbrev attached : Registry
attached = (reserve attachment new_session_registry).0

abbrev serving : Registry
serving = activate false 5 (activation_until 5 attachment) 0 attachment attached

serving_reached : Reach new_session_registry serving
unfolding reserve specter.Tun.Sessions.reserve_from specter.Tun.Sessions.held_alias
    specter.Tun.Sessions.store_alias specter.Tun.Sessions.admitted new_session_registry
serving_reached =
    Reach.next_step (Reach.next_step Reach.here (Step.reserves attachment refl))
      (Step.activates 0 attachment false 5 5 refl refl)

dialled : dial 9 (codes "session:1") (codes "e1-1") serving ≡ some 0
unfolding dial specter.Tun.Sessions.dial_at specter.Tun.Sessions.dial_session
    specter.Tun.Sessions.may_dial specter.Tun.Sessions.reserve specter.Tun.Sessions.reserve_from
    specter.Tun.Sessions.held_alias specter.Tun.Sessions.store_alias specter.Tun.Sessions.admitted
    new_session_registry activate specter.Tun.Sessions.may_activate activation_until
dialled = refl

dial-Dialled_example : Dialled serving 9 (codes "session:1") (codes "e1-1") 0
dial-Dialled_example =
    dial-Dialled serving 9 (codes "session:1") (codes "e1-1") 0 serving_reached dialled

Reach-Inv_example : Inv serving
Reach-Inv_example = Reach-Inv serving_reached
