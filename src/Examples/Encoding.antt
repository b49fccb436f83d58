-- ===== src/Examples/Encoding.antt =====
-- Encoders for the messages of the tunnels, with every field written out.
use specter.Prelude.{
  ℕ, zero, suc, ◌≡◌, ◌≢◌, refl, ap, ◌∙◌, Bool, true, false, Option, none, some, [], ◌∷◌, ◌++◌,
  Bytes, length,
}
use specter.Errors.{Result, ok, err, plain}
use specter.Tun.Text.{take, drop}
use specter.Tun.Identity.{Node}
use specter.Tun.Messages.{TunnelRoute, Encoders}

abbrev flag : Bool → ℕ
flag false = 0
flag true = 1

abbrev unflag : ℕ → Bool
unflag zero = false
unflag (suc n) = true

-- An optional node with what follows it.
abbrev write_node : Option Node → Bytes → Bytes
write_node none rest = 0 ∷ rest
write_node (some v) rest =
    1 ∷ v.id ∷ flag v.unknown ∷ flag v.rendezvous ∷ length v.address ∷ (v.address ++ rest)

abbrev read_node : Bytes → Option Node × Bytes
read_node (suc n ∷ id ∷ unknown ∷ rendezvous ∷ size ∷ rest) = (
  some (record {
    id = id;
    address = take size rest;
    unknown = unflag unknown;
    rendezvous = unflag rendezvous;
  }),
  drop size rest,
)
read_node (b ∷ rest) = (none, rest)
read_node [] = (none, [])

pub take-append : (a b : Bytes) → take (length a) (a ++ b) ≡ a
unfolding take
take-append [] b = refl
take-append (x ∷ a) b = ap (λ y. x ∷ y) (take-append a b)

pub drop-append : (a b : Bytes) → drop (length a) (a ++ b) ≡ b
unfolding drop
drop-append [] b = refl
drop-append (x ∷ a) b = drop-append a b

unflag-flag : (b : Bool) → unflag (flag b) ≡ b
unflag-flag true = refl
unflag-flag false = refl

read-write_node : (v : Option Node) (rest : Bytes) → read_node (write_node v rest) ≡ (v, rest)
read-write_node none rest = none_read rest
  where
    none_read : (rest : Bytes) → read_node (0 ∷ rest) ≡ (none, rest)
    none_read [] = refl
    none_read (a ∷ []) = refl
    none_read (a ∷ b ∷ []) = refl
    none_read (a ∷ b ∷ c ∷ []) = refl
    none_read (a ∷ b ∷ c ∷ d ∷ rest) = refl
read-write_node (some v) rest = cc (
  take-append v.address rest,
  drop-append v.address rest,
  unflag-flag v.unknown,
  unflag-flag v.rendezvous,
)

abbrev write_route : TunnelRoute → Bytes
write_route r =
    write_node r.client_destination
      (write_node r.chord_destination (write_node r.tunnel_destination r.hostname))

abbrev read_route : Bytes → TunnelRoute
read_route b =
    let (client, after_client) = read_node b in
    let (chord, after_chord) = read_node after_client in
    let (tunnel, hostname) = read_node after_chord in
    record {
      client_destination = client;
      chord_destination = chord;
      tunnel_destination = tunnel;
      hostname = hostname;
    }

read-write_route : (r : TunnelRoute) → read_route (write_route r) ≡ r
read-write_route r =
    rw
      (
        read-write_node r.client_destination
            (write_node r.chord_destination (write_node r.tunnel_destination r.hostname)),
        read-write_node r.chord_destination (write_node r.tunnel_destination r.hostname),
        read-write_node r.tunnel_destination r.hostname,
      )
      refl

pub ok_eq : {a b : Bytes} → ◌≡◌ {A = Result Bytes} (ok a) (ok b) → a ≡ b
ok_eq e = cc

pub route_read :
    (r : TunnelRoute) (b : Bytes)
    → ◌≡◌ {A = Result Bytes} (ok (write_route r)) (ok b)
    → ◌≡◌ {A = Result TunnelRoute} (ok (read_route b)) (ok r)
route_read r b e = rw (← ok_eq e) (ap ok (read-write_route r))

node_not_empty : (v : Option Node) (rest : Bytes) → write_node v rest ≢ []
node_not_empty none rest e = cc
node_not_empty (some v) rest e = cc

pub route_not_empty :
    (r : TunnelRoute) (client : Node) (b : Bytes)
    → r.client_destination ≡ some client
    → ◌≡◌ {A = Result Bytes} (ok (write_route r)) (ok b)
    → b ≢ []
route_not_empty r client b c e f =
    node_not_empty r.client_destination
      (write_node r.chord_destination (write_node r.tunnel_destination r.hostname)) (ok_eq e ∙ f)

instance abbrev pub plain_encoders : Encoders
plain_encoders = record {
  marshal_route = λ r. ok (write_route r);
  unmarshal_route = λ b. ok (read_route b);
  marshal_destination = λ d. ok (write_node d.chord (write_node d.tunnel []));
  unmarshal_destination = λ b.
      let (chord, rest) = read_node b in ok (record { chord = chord; tunnel = (read_node rest).0 });
  marshal_node = λ v. ok (write_node (some v) []);
  unmarshal_node = λ b. elim ((read_node b).0) [ none ↦ err (plain "no node") | some v ↦ ok v ];
  marshal_custom = λ h. ok (write_node h.client_identity h.client_token);
  unmarshal_custom = λ b.
      let (client, token) = read_node b in
      ok (record { client_identity = client; client_token = token });
  route_back = route_read;
  route_filled = route_not_empty;
}
