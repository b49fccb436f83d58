-- ===== src/Tun/Grants.antt =====
-- spec/tun/delegation.go and the records of tun/server/delegation_rpc.go: what a grant is, its token
-- and its stored form.
use specter.Prelude.{
  All, ℕ, zero, suc, Bool, true, false, not, ◌&&◌, ◌||◌, ◌≡◌, ◌≢◌, Option, none, some, List, [],
  ◌∷◌, ◌++◌, Bytes, bytes_eq, ◌=?◌, length, leb, ◌==◌, if◌then◌else◌,
}
use specter.Prelude.Int.{ℤ, pos, negsuc}
use specter.Errors.{Error, Result, ok, err, wrapped}
use specter.Tun.Text.{codes, IsByte, strip, take, drop}
use specter.Tun.Hex
use specter.Tun.Label.{Sha}
use specter.Tun.Messages.{CustomHostname, Encoders}

-- protocol.DelegationRecord; a record without an owner has no token.
pub record DelegationRecord : Type 0 where
  pub version : ℕ
  pub id : Bytes
  pub owner : Bytes
  pub hostname : Bytes
  pub expires_at : ℤ

-- protocol.DelegationGrant
pub record DelegationGrant : Type 0 where
  pub id : Bytes
  pub hostname : Bytes
  pub expires_at : ℤ
  pub incomplete : Bool

-- MarshalVT and UnmarshalVT, base64.RawURLEncoding, strict in decoding, and acme.Normalize, which
-- asks certmagic and idna.
pub record GrantCode : Type 0 where
  pub marshal_delegation : DelegationRecord → Result Bytes
  pub unmarshal_delegation : Bytes → Result DelegationRecord
  pub encode_raw : Bytes → Bytes
  pub decode_raw : Bytes → Option Bytes
  pub normalize : Bytes → Result Bytes
  pub delegation_back :
      (r : DelegationRecord) (b : Bytes)
      → marshal_delegation r ≡ ok b
      → unmarshal_delegation b ≡ ok r
  pub delegation_filled :
      (r : DelegationRecord) (b : Bytes) → r.version ≢ 0 → marshal_delegation r ≡ ok b → b ≢ []
  pub raw_back : (b : Bytes) → All IsByte b → decode_raw (encode_raw b) ≡ some b
  pub raw_length : (b : Bytes) → length b ≡ 32 → length (encode_raw b) ≡ 43

abbrev pub delegation_record_version : ℕ
delegation_record_version = 1

abbrev pub max_delegations_per_owner : ℕ
max_delegations_per_owner = 128

abbrev pub delegation_token_prefix : Bytes
delegation_token_prefix = codes "tg1_"

-- DelegationID and IsDelegationID
unfoldable pub delegation_id : Sha → Bytes → Bytes
delegation_id sha secret = Hex.encode (sha.sum256 secret)

unfoldable pub is_delegation_id : Bytes → Bool
is_delegation_id id = (length id == 64) && Hex.lower_hex id

abbrev pub is_negative : ℤ → Bool
is_negative (pos n) = false
is_negative (negsuc n) = true

-- An expiry of 0 stands for none.
abbrev pub is_past : ℤ → ℕ → Bool
is_past (negsuc n) now = true
is_past (pos zero) now = false
is_past (pos (suc n)) now = leb (suc n) now

-- What readDelegation gives that is no error of the ring: errDelegationNotFound,
-- errDelegationInvalid, or a record.
pub data Stored : Type 0 where
  delegation_not_found delegation_invalid : Stored
  stored : DelegationRecord → Stored

unfoldable pub valid_record : Bytes → DelegationRecord → Bool
valid_record id r =
    (r.version == delegation_record_version)
    && (r.id =? id)
    && not (r.owner =? [])
    && not (r.hostname =? [])
    && not (is_negative r.expires_at)

unfoldable pub has_dot : Bytes → Bool
has_dot [] = false
has_dot (c ∷ s) = (c == b'.') || has_dot s

-- grantFromRecord
unfoldable pub grant_from_record : DelegationRecord → DelegationGrant
grant_from_record r = record {
  id = r.id;
  hostname = r.hostname;
  expires_at = r.expires_at;
  incomplete = false;
}

-- The grant of ListDelegations for what is stored under one of the owner's ids.
unfoldable pub listed : Bytes → Bytes → Stored → DelegationGrant
listed owner id (stored r) =
    if r.owner =? owner
    then grant_from_record r
    else record { id = id; hostname = []; expires_at = pos 0; incomplete = true }
listed owner id _ = record { id = id; hostname = []; expires_at = pos 0; incomplete = true }

-- Whether RevokeDelegation takes the record for one of the owner.
unfoldable pub is_own : Bytes → Stored → Bool
is_own owner (stored r) = r.owner =? owner
is_own owner _ = false

unfoldable pub decode_custom : ⦃c : Encoders⦄ → Bytes → Result (Option CustomHostname)
decode_custom [] = ok none
decode_custom ⦃c = c⦄ (b ∷ val) = elim (c.unmarshal_custom (b ∷ val)) [
  | err e ↦ err e
  | ok custom ↦ ok (some custom)
]

-- The holder of a custom hostname: without one (ErrHostnameNotFound) nobody owns it.
unfoldable pub owns_custom : Bytes → Option CustomHostname → Bool
owns_custom owner none = false
owns_custom owner (some custom) = custom.client_token =? owner

-- The batches of ListDelegations, in at most as many rounds as there are ids.
unfoldable pub batches : ℕ → List Bytes → List (List Bytes)
batches zero ids = []
batches (suc n) [] = []
batches (suc n) (id ∷ ids) = take 8 (id ∷ ids) ∷ batches n (drop 8 (id ∷ ids))

abbrev pub unavailable : Error → Error
unavailable e = wrapped "unavailable" e

module _ ⦃g : GrantCode⦄ where
  -- EncodeDelegationToken and ParseDelegationToken
  unfoldable pub encode_delegation_token : Bytes → Bytes
  encode_delegation_token secret = delegation_token_prefix ++ g.encode_raw secret

  unfoldable pub secret_of : Option Bytes → Option Bytes
  secret_of none = none
  secret_of (some raw) = if length raw == 32 then some raw else none

  unfoldable pub parse_delegation_token : Bytes → Option Bytes
  parse_delegation_token token =
      if length token == 47
      then elim (strip delegation_token_prefix token) [
        | none ↦ none
        | some rest ↦ secret_of (g.decode_raw rest)
      ]
      else none

  unfoldable pub decode_delegation : Bytes → Bytes → Stored
  decode_delegation id [] = delegation_not_found
  decode_delegation id (b ∷ val) = elim (g.unmarshal_delegation (b ∷ val)) [
    | err e ↦ delegation_invalid
    | ok r ↦ if valid_record id r then stored r else delegation_invalid
  ]

  -- normalizeDelegationHostname
  unfoldable pub normalize_delegation_hostname : Bytes → Result Bytes
  normalize_delegation_hostname hostname =
      if has_dot hostname then g.normalize hostname else ok hostname
