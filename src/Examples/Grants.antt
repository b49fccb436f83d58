-- ===== src/Examples/Grants.antt =====
-- A client that mints a grant for its hostname, and revokes one that it has not.
use specter.Prelude.{
  ℕ, zero, suc, All, ◌≡◌, ◌≢◌, refl, ◌∙◌, some, [], ◌∷◌, ◌++◌, Bytes, length, bytes_eq, arith,
}
use specter.Prelude.Int.{ℤ, pos, negsuc}
use specter.Errors.{Result, ok, err}
use specter.Tun.Text.{codes, take, drop, IsByte}
use specter.Tun.Hex
use specter.Tun.Keys.{key_bytes}
use specter.Tun.Kv.{World, Network, set_entry}
use specter.Tun.Grants.{
  GrantCode, DelegationRecord, DelegationGrant, grant_from_record, encode_delegation_token,
  normalize_delegation_hostname, delegation_id,
}
use specter.Tun.Delegations.{mint_delegation, revoke_delegation}
use specter.Tun.Delegations.Removal.{RevokeOutcome}
use specter.Tun.Delegations.Revocation.{revoke_delegation-RevokeOutcome}
use specter.Tun.Delegations.Minted.{IsMinted, minted_record, mint_delegation-Minted}
use specter.Examples.Encoding.{plain_encoders, take-append, drop-append, ok_eq}
use specter.Examples.Tunnels.{network, caller, client, hostname, world, authenticated, zeros, sha}

abbrev write_int : ℤ → Bytes → Bytes
write_int (pos n) rest = 0 ∷ n ∷ rest
write_int (negsuc n) rest = 1 ∷ n ∷ rest

abbrev int_of : ℕ → ℕ → ℤ
int_of zero n = pos n
int_of (suc s) n = negsuc n

abbrev write_text : Bytes → Bytes → Bytes
write_text s rest = length s ∷ (s ++ rest)

abbrev write_record : DelegationRecord → Bytes
write_record r =
    r.version ∷ write_int r.expires_at (write_text r.id (write_text r.owner r.hostname))

abbrev owner_of : DelegationRecord → Bytes → DelegationRecord
owner_of r [] = r
owner_of r (size ∷ rest) = record r { owner = take size rest; hostname = drop size rest }

abbrev read_record : Bytes → Result DelegationRecord
read_record (version ∷ sign ∷ n ∷ size ∷ rest) = ok (
    owner_of
      (record {
        version = version;
        id = take size rest;
        owner = [];
        hostname = [];
        expires_at = int_of sign n;
      })
      (drop size rest))
read_record _ = err (specter.Errors.plain "short record")

int_lem :
    (version : ℕ) (z : ℤ) (id owner host : Bytes)
    → read_record (version ∷ write_int z (write_text id (write_text owner host)))
      ≡ ok (record { version = version; id = id; owner = owner; hostname = host; expires_at = z })
int_lem version (pos n) id owner host =
    rw
      (
        take-append id (write_text owner host),
        drop-append id (write_text owner host),
        take-append owner host,
        drop-append owner host,
      )
      refl
int_lem version (negsuc n) id owner host =
    rw
      (
        take-append id (write_text owner host),
        drop-append id (write_text owner host),
        take-append owner host,
        drop-append owner host,
      )
      refl

record_read :
    (r : DelegationRecord) (b : Bytes)
    → ◌≡◌ {A = Result Bytes} (ok (write_record r)) (ok b)
    → read_record b ≡ ok r
record_read r b e = rw (← ok_eq e) (int_lem r.version r.expires_at r.id r.owner r.hostname)

record_filled :
    (r : DelegationRecord) (b : Bytes)
    → r.version ≢ 0
    → ◌≡◌ {A = Result Bytes} (ok (write_record r)) (ok b)
    → b ≢ []
record_filled r b v e f = cc (ok_eq e ∙ f)

padded_back : (b : Bytes) → All IsByte b → some (drop 11 (zeros 11 ++ b)) ≡ some b
unfolding drop
padded_back b h = refl

padded_length : (b : Bytes) → length b ≡ 32 → length (zeros 11 ++ b) ≡ 43
padded_length b h = omega (arith, h)

instance abbrev grants : GrantCode
grants = record {
  marshal_delegation = λ r. ok (write_record r);
  unmarshal_delegation = read_record;
  encode_raw = λ b. zeros 11 ++ b;
  decode_raw = λ s. some (drop 11 s);
  normalize = λ s. ok s;
  delegation_back = record_read;
  delegation_filled = record_filled;
  raw_back = padded_back;
  raw_length = padded_length;
}

revoke_delegation-RevokeOutcome_example :
    RevokeOutcome caller
      (Hex.encode (zeros 32))
      world
      (revoke_delegation caller (Hex.encode (zeros 32)) world)
revoke_delegation-RevokeOutcome_example =
    revoke_delegation-RevokeOutcome caller (Hex.encode (zeros 32)) world

abbrev new_record : DelegationRecord
new_record = minted_record sha (zeros 32) (codes "ab") hostname (pos 0)

minting :
    (mint_delegation sha (some (zeros 32)) 1000 caller hostname (pos 0) world).1
    ≡ ok (grant_from_record new_record, encode_delegation_token (zeros 32))
unfolding mint_delegation specter.Tun.Delegations.mint_authorized specter.Tun.Delegations.limited
    specter.Tun.Delegations.mint_for specter.Tun.Delegations.minted
    specter.Tun.Delegations.verify_delegated_authority specter.Tun.Delegations.owns_hostname
    specter.Tun.Delegations.owns_registered specter.Tun.Grants.has_dot
    specter.Tun.Grants.normalize_delegation_hostname specter.Tun.Identity.extract_authenticated
    specter.Tun.Identity.extract_identity specter.Tun.Identity.cut specter.Tun.Identity.identity_of
    specter.Tun.Identity.parse_uint specter.Tun.Identity.must specter.Tun.Identity.parse_digits
    specter.Tun.Kv.then_ specter.Tun.Kv.call specter.Tun.Kv.outcome specter.Tun.Server.on_error
    key_bytes
minting = refl

mint_delegation-Minted_example :
    IsMinted network sha
      (zeros 32)
      new_record
      world
      (mint_delegation sha (some (zeros 32)) 1000 caller hostname (pos 0) world).0
      (grant_from_record new_record)
      (encode_delegation_token (zeros 32))
unfolding normalize_delegation_hostname specter.Tun.Grants.has_dot
mint_delegation-Minted_example =
    mint_delegation-Minted network (λ i. refl) sha (zeros 32) refl (omega arith) 1000 caller
      (codes "ab") client hostname hostname (pos 0) world (grant_from_record new_record)
      (encode_delegation_token (zeros 32)) authenticated refl (λ e. cc e) (λ e. cc e) minting
