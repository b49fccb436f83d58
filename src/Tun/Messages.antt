-- ===== src/Tun/Messages.antt =====
-- The messages that the tunnel server keeps in the ring (spec/proto/tunnel.proto), over their
-- generated encoders.
use specter.Prelude.{◌≡◌, ◌≢◌, Option, none, some, [], Bytes}
use specter.Errors.{Result, ok}
use specter.Tun.Identity.{Node}

-- protocol.TunnelRoute
pub record TunnelRoute : Type 0 where
  pub client_destination : Option Node
  pub chord_destination : Option Node
  pub tunnel_destination : Option Node
  pub hostname : Bytes

-- protocol.TunnelDestination
pub record TunnelDestination : Type 0 where
  pub chord : Option Node
  pub tunnel : Option Node

-- protocol.CustomHostname
pub record CustomHostname : Type 0 where
  pub client_identity : Option Node
  pub client_token : Bytes

-- MarshalVT and UnmarshalVT. What was marshalled comes back, and a message with a submessage is
-- not empty.
pub record Encoders : Type 0 where
  pub marshal_route : TunnelRoute → Result Bytes
  pub unmarshal_route : Bytes → Result TunnelRoute
  pub marshal_destination : TunnelDestination → Result Bytes
  pub unmarshal_destination : Bytes → Result TunnelDestination
  pub marshal_node : Node → Result Bytes
  pub unmarshal_node : Bytes → Result Node
  pub marshal_custom : CustomHostname → Result Bytes
  pub unmarshal_custom : Bytes → Result CustomHostname
  pub route_back : (r : TunnelRoute) (b : Bytes) → marshal_route r ≡ ok b → unmarshal_route b ≡ ok r
  pub route_filled :
      (r : TunnelRoute) (client : Node) (b : Bytes)
      → r.client_destination ≡ some client
      → marshal_route r ≡ ok b
      → b ≢ []

-- GetAddress of a node that may be nil.
abbrev pub address_of : Option Node → Bytes
address_of none = []
address_of (some n) = n.address
