-- ===== src/Tun/Delegations.antt =====
-- tun/server/delegation_rpc.go: grants, by which the owner of a hostname lets the bearer of a token
-- serve it.
pub mod Removal
pub mod Revocation
pub mod Minting
pub mod Minted
use Prim.Native.String.{String}
use specter.Prelude.{
  All, ℕ, zero, suc, ◌+◌, Bool, true, false, not, ◌&&◌, ◌||◌, ◌≡◌, ◌≢◌, Option, none, some, List,
  [], ◌∷◌, ◌++◌, map, Bytes, bytes_eq, ◌=?◌, length, ltb, leb, ◌==◌, if◌then◌else◌,
}
use specter.Prelude.Int.{ℤ, pos, negsuc}
use specter.Errors.{Error, Result, ok, err, plain, wrapped}
use specter.Containers.{member}
use specter.Tun.Text.{codes, IsByte, strip, take, drop}
use specter.Tun.Hex
use specter.Tun.Keys.{
  Key, key_bytes, client_hostnames, custom_hostname, delegation, client_delegations,
}
use specter.Tun.Label.{Sha}
use specter.Tun.Identity.{Caller, extract_authenticated}
use specter.Tun.Messages.{CustomHostname, Encoders}
use specter.Tun.Kv.{
  M, World, Network, pure, fail, ◌>>=◌, ◌>>◌, put, get, delete, prefix_append, prefix_list,
  prefix_contains, prefix_remove, all, values,
}
use specter.Tun.Server.{lift, mapped}
use specter.Tun.Grants.{
  DelegationRecord, DelegationGrant, GrantCode, delegation_record_version,
  max_delegations_per_owner, delegation_token_prefix, delegation_id, is_delegation_id, is_negative,
  is_past, Stored, valid_record, has_dot, grant_from_record, listed, is_own, decode_custom,
  owns_custom, batches, unavailable, encode_delegation_token, secret_of, parse_delegation_token,
  decode_delegation, normalize_delegation_hostname, delegation_not_found, delegation_invalid,
  stored,
}

-- The error of the index is part of the response.
unfoldable pub index_error : World × Result (Unit {0}) → World × Result (Option Error)
index_error (w, err e) = (w, ok (some e))
index_error (w, ok done) = (w, ok none)

module _ ⦃n : Network⦄ ⦃c : Encoders⦄ where
  -- FindCustomHostname of spec/tun/tun.go
  unfoldable pub find_custom_hostname : Bytes → M (Option CustomHostname)
  find_custom_hostname hostname = do
    val ← get (key_bytes (custom_hostname hostname))
    lift (decode_custom val)

  unfoldable pub owns_registered : Bytes → Bytes → Bool → M Bool
  owns_registered owner hostname owned =
      if not owned
      then pure false
      else if has_dot hostname
      then (find_custom_hostname hostname >>= λ custom. pure (owns_custom owner custom))
      else pure true

  -- ownsHostname
  unfoldable pub owns_hostname : Bytes → Bytes → M Bool
  owns_hostname owner hostname =
      prefix_contains (key_bytes (client_hostnames owner)) hostname
      >>= owns_registered owner hostname

  -- verifyDelegatedAuthority, with delegationAuthorityError around it.
  unfoldable pub verify_delegated_authority : Bytes → Bytes → M (Unit {0})
  verify_delegated_authority owner hostname = do
    owned ← mapped unavailable (owns_hostname owner hostname)
    if owned then pure tt else fail (Error.twirp "hostname is not registered to the grant owner")

module _ ⦃n : Network⦄ ⦃g : GrantCode⦄ where
  -- readDelegation
  unfoldable pub read_delegation : Bytes → M Stored
  read_delegation id =
      if is_delegation_id id
      then (get (key_bytes (delegation id)) >>= λ val. pure (decode_delegation id val))
      else pure delegation_invalid

  -- MintDelegation from the check of the limit on, for the random secret if it could be read.
  unfoldable pub minted : DelegationRecord → Bytes → M (DelegationGrant × Bytes)
  minted rec secret = do
    data_ ← lift (g.marshal_delegation rec)
    mapped unavailable (prefix_append (key_bytes (client_delegations rec.owner)) rec.id)
    mapped (wrapped "grant may be incomplete") (put (key_bytes (delegation rec.id)) data_)
    pure (grant_from_record rec, encode_delegation_token secret)

  unfoldable pub mint_for : Sha → Option Bytes → Bytes → Bytes → ℤ → M (DelegationGrant × Bytes)
  mint_for sha none owner hostname expires_at = fail (Error.twirp "internal")
  mint_for sha (some secret) owner hostname expires_at =
      minted
        (record {
          version = delegation_record_version;
          id = delegation_id sha secret;
          owner = owner;
          hostname = hostname;
          expires_at = expires_at;
        })
        secret

  unfoldable pub limited :
      Sha → Option Bytes → Bytes → Bytes → ℤ → List Bytes → M (DelegationGrant × Bytes)
  limited sha random owner hostname expires_at ids =
      if leb max_delegations_per_owner (length ids)
      then fail (Error.twirp "delegation limit reached; revoke unused or incomplete grants")
      else mint_for sha random owner hostname expires_at

  unfoldable pub list_job : Bytes → Bytes → M DelegationGrant
  list_job owner id = do found ← read_delegation id; pure (listed owner id found)

  unfoldable pub list_batches : Bytes → List (List Bytes) → M (List DelegationGrant)
  list_batches owner [] = pure []
  list_batches owner (batch ∷ rest) = do
    grants ←
        mapped unavailable
          (λ w. let (w', rs) = all (map (list_job owner) batch) w in (w', values rs))
    others ← list_batches owner rest
    pure (grants ++ others)

  -- ListDelegations
  unfoldable pub list_delegations : Caller → M (List DelegationGrant)
  list_delegations caller = do
    auth ← lift (extract_authenticated caller)
    let (owner, verified_client) = auth
    ids ← mapped unavailable (prefix_list (key_bytes (client_delegations owner)))
    let some_ids = take max_delegations_per_owner ids
    list_batches owner (batches (length some_ids) some_ids)

  -- The check of RevokeDelegation that the grant is one of the caller.
  unfoldable pub require_own : Bytes → Bytes → Stored → M (Unit {0})
  require_own owner id found = if is_own owner found then pure tt else do
    indexed ← mapped unavailable (prefix_contains (key_bytes (client_delegations owner)) id)
    if indexed then pure tt else fail (Error.twirp "grant is not owned by this client")

  -- RevokeDelegation from the deletion on.
  unfoldable pub withdraw_grant : Bytes → Bytes → M (Option Error)
  withdraw_grant owner id = do
    mapped unavailable (delete (key_bytes (delegation id)))
    λ w. index_error (prefix_remove (key_bytes (client_delegations owner)) id w)

  unfoldable pub revoke_for : Bytes → Bytes → M (Option Error)
  revoke_for owner id = do
    found ← mapped unavailable (read_delegation id)
    require_own owner id found
    withdraw_grant owner id

  -- RevokeDelegation: the error of the index that the response has.
  unfoldable pub revoke_delegation : Caller → Bytes → M (Option Error)
  revoke_delegation caller id = do
    auth ← lift (extract_authenticated caller)
    if is_delegation_id id then revoke_for auth.0 id else fail (Error.twirp "invalid grant ID")

module _ ⦃n : Network⦄ ⦃c : Encoders⦄ ⦃g : GrantCode⦄ where
  unfoldable pub mint_authorized :
      Sha → Option Bytes → Bytes → Bytes → ℤ → M (DelegationGrant × Bytes)
  mint_authorized sha random owner hostname expires_at = do
    verify_delegated_authority owner hostname
    ids ← mapped unavailable (prefix_list (key_bytes (client_delegations owner)))
    limited sha random owner hostname expires_at ids

  -- MintDelegation, at a time in seconds.
  unfoldable pub mint_delegation :
      Sha → Option Bytes → ℕ → Caller → Bytes → ℤ → M (DelegationGrant × Bytes)
  mint_delegation sha random now caller requested expires_at = do
    auth ← lift (extract_authenticated caller)
    hostname ← lift (normalize_delegation_hostname requested)
    if is_past expires_at now
        then fail (Error.twirp "expires_at must be in the future")
        else mint_authorized sha random auth.0 hostname expires_at
