-- ===== src/Tun/Delegations/Minted.antt =====
-- MintDelegation, and readDelegation of the new grant at any server of the ring.
use specter.Prelude.{
  ℕ, ◌≡◌, ◌≢◌, refl, sym, ap, subst, ◌∙◌, Bool, true, false, some, List, [], Bytes, All, length,
  leb, if◌then◌else◌, arith,
}
use specter.Prelude.Int.{ℤ}
use specter.Errors.{Error, Result, ok, wrapped}
use specter.Tun.Text.{IsByte}
use specter.Tun.Keys.{key_bytes, delegation, client_delegations}
use specter.Tun.Label.{Sha}
use specter.Tun.Identity.{Node, Caller, extract_authenticated}
use specter.Tun.Messages.{Encoders}
use specter.Tun.Kv.{
  Entry, World, Network, Fate, answered, outcome, call, put, prefix_append, prefix_list, then_,
  pure, fail,
}
use specter.Tun.Kv.Results.{then_ok}
use specter.Tun.Changes.{put_lem}
use specter.Tun.Server.{on_error, lift}
use specter.Tun.Routes.Lookup.{Answering}
use specter.Tun.Grants.{
  GrantCode, DelegationRecord, DelegationGrant, stored, delegation_record_version,
  max_delegations_per_owner, is_delegation_id, delegation_id, is_past, unavailable,
  decode_delegation, encode_delegation_token, parse_delegation_token, grant_from_record,
  normalize_delegation_hostname,
}
use specter.Tun.Delegations.{
  read_delegation, verify_delegated_authority, minted, mint_for, limited, mint_authorized,
  mint_delegation,
}
use specter.Tun.Delegations.Removal.{stored_at}
use specter.Tun.Delegations.Minting.{
  id_valid, parse-encode_delegation_token, on_error_ok, decode_filled, record_valid, IsOwner,
  verify_authority_lem,
}

-- The record of a grant that is minted for a secret.
abbrev pub minted_record : Sha → Bytes → Bytes → Bytes → ℤ → DelegationRecord
minted_record sha secret owner hostname expires_at = record {
  version = delegation_record_version;
  id = delegation_id sha secret;
  owner = owner;
  hostname = hostname;
  expires_at = expires_at;
}

-- The record is stored, and the grant and the token are those of the record.
record IsWritten ⦃g : GrantCode⦄ (rec : DelegationRecord) (secret : Bytes) (w : World)
    (grant : DelegationGrant) (token : Bytes) : Type 0 where
  value : Bytes
  written : g.marshal_delegation rec ≡ ok value
  at_key : (w.keys (key_bytes (delegation rec.id))).simple ≡ value
  same_grant : grant ≡ grant_from_record rec
  same_token : token ≡ encode_delegation_token secret

pair_parts :
    {A B : Type 0} (x y : A × B)
    → ◌≡◌ {A = Result (A × B)} (ok x) (ok y)
    → (x.0 ≡ y.0) × (x.1 ≡ y.1)
pair_parts x y e = (cc, cc)

module _ ⦃n : Network⦄ ⦃g : GrantCode⦄ where
  minted_lem :
      (rec : DelegationRecord) (secret : Bytes) (v : World) (grant : DelegationGrant)
      (token : Bytes)
      → (minted rec secret v).1 ≡ ok (grant, token)
      → IsWritten rec secret (minted rec secret v).0 grant token
  unfolding minted
  minted_lem rec secret v grant token h =
      let index = key_bytes (client_delegations rec.owner) in
      let key = key_bytes (delegation rec.id) in
      let (value, encoded, step) = then_ok (lift (g.marshal_delegation rec) v) _ (grant, token) h in
      let (u, appended, step') =
        then_ok (on_error unavailable (prefix_append index rec.id v)) _ (grant, token)
          (ap (λ r. r.1) (sym step) ∙ h) in
      let v' = (on_error unavailable (prefix_append index rec.id v)).0 in
      let (u', stored_, step'') =
        then_ok (on_error (wrapped "grant may be incomplete") (put key value v')) _ (grant, token)
          (ap (λ r. r.1) (sym (step ∙ step')) ∙ h) in
      let (put_ok, same) =
        on_error_ok (wrapped "grant may be incomplete") (put key value v') u' stored_ in
      let whole = step ∙ step' ∙ step'' in
      let last = ap (λ r. r.1) (sym whole) ∙ h in
      record {
        value = value;
        written = encoded;
        at_key =
            ap (λ (r : World × Result (DelegationGrant × Bytes)). (r.0.keys key).simple) whole
            ∙ ap (λ (r : World × Result (Unit {0})). (r.0.keys key).simple) same
            ∙ put_lem key value v' u' put_ok;
        same_grant = sym (pair_parts _ _ last).0;
        same_token = sym (pair_parts _ _ last).1;
      }

  limited_lem :
      (sha : Sha) (secret owner hostname : Bytes) (expires_at : ℤ) (ids : List Bytes) (v : World)
      (grant : DelegationGrant) (token : Bytes)
      → (limited sha (some secret) owner hostname expires_at ids v).1 ≡ ok (grant, token)
      → IsWritten
          (minted_record sha secret owner hostname expires_at)
          secret
          (limited sha (some secret) owner hostname expires_at ids v).0
          grant
          token
  unfolding limited mint_for
  limited_lem sha secret owner hostname expires_at ids v grant token h =
      below (leb max_delegations_per_owner (length ids)) h
    where
      below :
          (b : Bool)
          → let r =
              (if b
                  then fail
                      (Error.twirp "delegation limit reached; revoke unused or incomplete grants")
                  else minted (minted_record sha secret owner hostname expires_at) secret)
                v in
            r.1 ≡ ok (grant, token)
            → IsWritten (minted_record sha secret owner hostname expires_at) secret r.0 grant token
      below true e = cc
      below false e =
          minted_lem (minted_record sha secret owner hostname expires_at) secret v grant token e

-- A server whose calls are answered reads what is stored.
read-Answering :
    (other : Network) ⦃g : GrantCode⦄ (id : Bytes) (w : World)
    → Answering other
    → is_delegation_id id ≡ true
    → (read_delegation ⦃n = other⦄ id w).1 ≡ ok (stored_at id w)
unfolding read_delegation call then_ outcome
read-Answering other id w answering valid = rw valid (
    answer (other.fate w.calls) (key_bytes (delegation id)) (w.keys (key_bytes (delegation id)))
      (answering w.calls))
  where
    answer :
        (fate : Fate) (key : Bytes) (e : Entry)
        → fate ≡ answered
        → (then_ (outcome fate key w (e, ok e.simple)) (λ val. pure (decode_delegation id val))).1
          ≡ ok (decode_delegation id e.simple)
    answer answered key e h = refl
    answer (Fate.refused f) key e h = cc
    answer (Fate.lost f) key e h = cc

-- The owner has the hostname, the token leads to the id of the grant, and a server reads the grant
-- with its owner, its hostname and its expiry.
pub record IsMinted ⦃c : Encoders⦄ ⦃g : GrantCode⦄ (other : Network) (sha : Sha) (secret : Bytes)
    (r : DelegationRecord) (w w' : World) (grant : DelegationGrant) (token : Bytes) : Type 0 where
  pub authority : IsOwner r.owner r.hostname w
  pub same_grant : grant ≡ grant_from_record r
  pub parsed : parse_delegation_token token ≡ some secret
  pub read : (read_delegation ⦃n = other⦄ (delegation_id sha secret) w').1 ≡ ok (stored r)

module _ ⦃n : Network⦄ ⦃c : Encoders⦄ ⦃g : GrantCode⦄ (other : Network)
    (answering : Answering other) (sha : Sha) (secret : Bytes) (sized : length secret ≡ 32)
    (bytes : All IsByte secret) where
  module _ (owner hostname : Bytes) (expires_at : ℤ) (now : ℕ) (has_owner : owner ≢ [])
      (has_name : hostname ≢ []) (lasting : is_past expires_at now ≡ false) where
    abbrev rec : DelegationRecord
    rec = minted_record sha secret owner hostname expires_at

    written_read :
        (w w' : World) (grant : DelegationGrant) (token : Bytes)
        → IsOwner owner hostname w
        → IsWritten rec secret w' grant token
        → IsMinted other sha secret rec w w' grant token
    written_read w w' grant token may at =
        let back : stored_at (delegation_id sha secret) w' ≡ stored rec =
          ap (decode_delegation (delegation_id sha secret)) at.at_key
          ∙ decode_filled rec.id at.value rec
              (g.delegation_filled rec at.value (omega arith) at.written)
              (g.delegation_back rec at.value at.written)
              (record_valid rec now refl has_owner has_name lasting) in
        record {
          authority = may;
          same_grant = at.same_grant;
          parsed =
              ap parse_delegation_token at.same_token
              ∙ parse-encode_delegation_token secret sized bytes;
          read =
              read-Answering other (delegation_id sha secret) w' answering (id_valid sha secret)
              ∙ ap ok back;
        }

    authorized_lem :
        (w : World) (grant : DelegationGrant) (token : Bytes)
        → (mint_authorized sha (some secret) owner hostname expires_at w).1 ≡ ok (grant, token)
        → IsMinted other sha secret rec w
            (mint_authorized sha (some secret) owner hostname expires_at w).0
            grant
            token
    unfolding mint_authorized
    authorized_lem w grant token h =
        let index = key_bytes (client_delegations owner) in
        let (u, verified, step) =
          then_ok (verify_delegated_authority owner hostname w) _ (grant, token) h in
        let w1 = (verify_delegated_authority owner hostname w).0 in
        let (ids, listed, step') =
          then_ok (on_error unavailable (prefix_list index w1)) _ (grant, token)
            (ap (λ r. r.1) (sym step) ∙ h) in
        let w2 = (on_error unavailable (prefix_list index w1)).0 in
        let whole = step ∙ step' in
        let written =
          limited_lem sha secret owner hostname expires_at ids w2 grant token
            (ap (λ r. r.1) (sym whole) ∙ h) in
        written_read w (mint_authorized sha (some secret) owner hostname expires_at w).0 grant token
          (verify_authority_lem owner hostname w u verified)
          (subst
            (λ (r : World × Result (DelegationGrant × Bytes)). IsWritten rec secret r.0 grant token)
            (sym whole) written)

  checked_lem :
      (owner hostname : Bytes) (expires_at : ℤ) (now : ℕ) (late : Bool) (w : World)
      (grant : DelegationGrant) (token : Bytes)
      → owner ≢ []
      → hostname ≢ []
      → is_past expires_at now ≡ late
      → let r =
          (if late
              then fail (Error.twirp "expires_at must be in the future")
              else mint_authorized sha (some secret) owner hostname expires_at)
            w in
        r.1 ≡ ok (grant, token)
        → IsMinted other sha secret
            (minted_record sha secret owner hostname expires_at)
            w
            r.0
            grant
            token
  checked_lem owner hostname expires_at now true w grant token o name late h = cc
  checked_lem owner hostname expires_at now false w grant token o name late h =
      authorized_lem owner hostname expires_at now o name late w grant token h

  -- If MintDelegation with a secret of 32 bytes succeeds for an authenticated owner with a token
  -- that is not empty, by a hostname whose normal form is not empty, whatever becomes of its
  -- calls to the ring: the owner had registered the hostname and, if it has a dot, its custom
  -- hostname is on record for the owner; the response has the grant for that hostname and
  -- expiry, with the id of the secret; ParseDelegationToken gives the secret back from the
  -- token; and with nothing changed in the ring after it readDelegation of that id, at any
  -- server all of whose calls the ring answers, gives the record with this owner, hostname and
  -- expiry.
  pub mint_delegation-Minted :
      (now : ℕ) (caller : Caller) (owner : Bytes) (client : Node) (requested hostname : Bytes)
      (expires_at : ℤ) (w : World) (grant : DelegationGrant) (token : Bytes)
      → extract_authenticated caller ≡ ok (owner, client)
      → normalize_delegation_hostname requested ≡ ok hostname
      → owner ≢ []
      → hostname ≢ []
      → (mint_delegation sha (some secret) now caller requested expires_at w).1 ≡ ok (grant, token)
      → IsMinted other sha secret
          (minted_record sha secret owner hostname expires_at)
          w
          (mint_delegation sha (some secret) now caller requested expires_at w).0
          grant
          token
  unfolding mint_delegation then_
  mint_delegation-Minted now caller owner client requested hostname expires_at w grant token auth
        normal o name h =
      let late = is_past expires_at now in
      let shape : mint_delegation sha (some secret) now caller requested expires_at w
          ≡ (if late
                then fail (Error.twirp "expires_at must be in the future")
                else mint_authorized sha (some secret) owner hostname expires_at)
              w =
        rw (auth, normal) refl in
      subst
        (λ (r : World × Result (DelegationGrant × Bytes)).
          IsMinted other sha secret (minted_record sha secret owner hostname expires_at) w r.0 grant
            token)
        (sym shape)
        (checked_lem owner hostname expires_at now late w grant token o name refl
          (ap (λ r. r.1) (sym shape) ∙ h))
