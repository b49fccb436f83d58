-- ===== src/Tun/Identity.antt =====
-- spec/pki/token.go: the identity of a client in the common name of its certificate, and
-- extractAuthenticated of tun/server/client_rpc.go.
use specter.Prelude.{
  ℕ, ◌+◌, ◌-◌, ◌*◌, ◌^◌, Bool, true, false, ◌&&◌, Option, none, some, [], ◌∷◌, ◌++◌, Bytes,
  bytes_eq, ◌=?◌, ◌==◌, ltb, leb, if◌then◌else◌,
}
use specter.Errors.{Error, Result, ok, err, plain, panics, ◌>>=◌}
use specter.Tun.Text.{codes}
use specter.Tun.Keys.{decimal}

-- protocol.Node
pub record Node : Type 0 where
  pub id : ℕ
  pub address : Bytes
  pub unknown : Bool
  pub rendezvous : Bool

pub data TokenVersion : Type 0 where
  token_v1 token_v2 : TokenVersion

pub record Identity : Type 0 where
  pub token : Bytes
  pub id : ℕ
  pub version : TokenVersion

-- NodeIdentity
abbrev pub node_identity : Identity → Node
node_identity n = record { id = n.id; address = n.token; unknown = false; rendezvous = true }

-- strings.Cut
unfoldable pub cut : ℕ → Bytes → Option (Bytes × Bytes)
cut sep [] = none
cut sep (c ∷ s) =
    if c == sep
    then some ([], s)
    else elim (cut sep s) [ none ↦ none | some (before, after) ↦ some (c ∷ before, after) ]

-- strconv.ParseUint(s, 10, 64) behind the digits read so far.
unfoldable pub parse_digits : ℕ → Bytes → Option ℕ
parse_digits n [] = if ltb n (2 ^ 64) then some n else none
parse_digits n (c ∷ s) =
    let rest = parse_digits (10 * n + (c - 48)) s in if leb 48 c && leb c 57 then rest else none

unfoldable pub parse_uint : Bytes → Option ℕ
unfolding parse_digits
parse_uint [] = none
parse_uint (c ∷ s) = parse_digits 0 (c ∷ s)

-- util.Must
unfoldable pub must : Option ℕ → Result ℕ
must none = err panics
must (some n) = ok n

-- The switch on the version, for the three parts of the name.
unfoldable pub identity_of : Bytes → Bytes → Bytes → Bytes → Result Identity
unfolding must
identity_of cn version id token =
    if version =? codes "v1"
    then must (parse_uint id) >>= (λ n. ok (record { token = token; id = n; version = token_v1 }))
    else if version =? codes "v2"
    then must (parse_uint id) >>= (λ n. ok (record { token = cn; id = n; version = token_v2 }))
    else err (plain "pki: unknown subject in certificate")

-- ExtractCertificateIdentity of a certificate with this common name.
unfoldable pub extract_identity : Bytes → Result Identity
extract_identity cn = elim (cut b':' cn) [
  | none ↦ err (plain "pki: invalid subject format")
  | some (version, rest) ↦ elim (cut b':' rest) [
    | none ↦ err (plain "pki: invalid subject format")
    | some (id, token) ↦ identity_of cn version id token
  ]
]

-- The common name of MakeSubjectV1, and that of MakeSubjectV2 for the text of the hash.
unfoldable pub make_subject : TokenVersion → ℕ → Bytes → Bytes
make_subject token_v1 id text = codes "v1" ++ (b':' ∷ (decimal id ++ (b':' ∷ text)))
make_subject token_v2 id text = codes "v2" ++ (b':' ∷ (decimal id ++ (b':' ∷ text)))

-- The delegation of an RPC as far as a handler reads it: that of a connection has a certificate,
-- with its common name, if the client gave one.
pub data Caller : Type 0 where
  no_delegation no_certificate : Caller
  certificate : Bytes → Caller

abbrev pub Authenticated : Type 0
Authenticated = Bytes × Node

-- twirp errors by their code and text.
abbrev pub unauthenticated : Error → Error
unauthenticated e = Error.wrapped "unauthenticated" e

authenticated_as : Result Identity → Result Authenticated
authenticated_as (err panics) = err panics
authenticated_as (err e) = err (unauthenticated e)
authenticated_as (ok n) = ok (n.token, node_identity n)

-- extractAuthenticated
unfoldable pub extract_authenticated : Caller → Result Authenticated
unfolding authenticated_as
extract_authenticated no_delegation = err (Error.twirp "delegation missing in context")
extract_authenticated no_certificate = err (Error.twirp "missing client certificate")
extract_authenticated (certificate cn) = authenticated_as (extract_identity cn)
