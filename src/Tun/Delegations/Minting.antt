-- ===== src/Tun/Delegations/Minting.antt =====
-- What a minted grant is: a record that every server reads back, for a hostname of its owner.
use specter.Prelude.{
  All, ℕ, ◌≡◌, ◌≢◌, refl, sym, ap, ◌∙◌, inl, inr, Bool, true, false, not, Option, none, some, [],
  ◌∷◌, Bytes, bytes_eq, ◌=?◌, length, length-append, Bool-cases, if◌then◌else◌, bytes_beq_iff,
}
use specter.Prelude.Int.{ℤ, pos, negsuc}
use specter.Errors.{Error, Result, ok, err}
use specter.Containers.{member}
use specter.Tun.Text.{strip-append, IsByte}
use specter.Tun.Hex
use specter.Tun.Keys.{key_bytes, custom_hostname, client_hostnames}
use specter.Tun.Label.{Sha}
use specter.Tun.Messages.{CustomHostname, Encoders}
use specter.Tun.Kv.{World, Network, get, prefix_contains, then_, pure, fail}
use specter.Tun.Kv.Results.{then_ok}
use specter.Tun.Changes.{Kept, Keeps, then-Keeps, Same, Same-IsFrame, read_lem}
use specter.Tun.Server.{on_error, lift}
use specter.Tun.Server.Guard.{Registered}
use specter.Tun.Server.Frame.{read-Keeps, lift-Keeps}
use specter.Tun.Grants.{
  GrantCode, DelegationRecord, stored, is_delegation_id, delegation_id, delegation_token_prefix,
  is_past, is_negative, valid_record, has_dot, decode_custom, owns_custom, unavailable,
  decode_delegation, encode_delegation_token, parse_delegation_token, secret_of,
}
use specter.Tun.Delegations.{
  find_custom_hostname, owns_registered, owns_hostname, verify_delegated_authority,
}

-- An id of SHA-256 is one that readDelegation takes.
pub id_valid : (sha : Sha) (secret : Bytes) → is_delegation_id (delegation_id sha secret) ≡ true
unfolding is_delegation_id delegation_id
id_valid sha secret =
    let digest = sha.sum256 secret in
    rw
      (
        Hex.lower_hex-encode digest (sha.digest_bytes secret),
        Hex.length-encode digest,
        sha.digest_length secret,
      )
      refl

-- The token is that of its secret.
pub parse-encode_delegation_token :
    ⦃g : GrantCode⦄ (secret : Bytes)
    → length secret ≡ 32
    → All IsByte secret
    → parse_delegation_token (encode_delegation_token secret) ≡ some secret
unfolding parse_delegation_token encode_delegation_token secret_of
parse-encode_delegation_token ⦃g = g⦄ secret h bytes =
    let raw = g.encode_raw secret in
    rw
      (
        length-append delegation_token_prefix raw,
        g.raw_length secret h,
        strip-append delegation_token_prefix raw,
        g.raw_back secret bytes,
        h,
      )
      refl

not_empty : (s : Bytes) → s ≢ [] → not (s =? []) ≡ true
not_empty s h = elim (Bool-cases (s =? [])) [
  | inl e ↦ absurd (h ((bytes_beq_iff s []).0 e))
  | inr e ↦ rw e refl
]

future : (z : ℤ) (now : ℕ) → is_past z now ≡ false → is_negative z ≡ false
future (pos n) now h = refl
future (negsuc n) now h = cc

module _ ⦃g : GrantCode⦄ where
  pub decode_filled :
      (id val : Bytes) (r : DelegationRecord)
      → val ≢ []
      → g.unmarshal_delegation val ≡ ok r
      → valid_record id r ≡ true
      → decode_delegation id val ≡ stored r
  unfolding decode_delegation
  decode_filled id [] r filled h v = absurd (filled refl)
  decode_filled id (b ∷ val) r filled h v = rw (h, v, decode_delegation)

  pub record_valid :
      (r : DelegationRecord) (now : ℕ)
      → r.version ≡ 1
      → r.owner ≢ []
      → r.hostname ≢ []
      → is_past r.expires_at now ≡ false
      → valid_record r.id r ≡ true
  unfolding valid_record
  record_valid r now v o h e =
      rw
        (
          v,
          (bytes_beq_iff r.id r.id).1 refl,
          not_empty r.owner o,
          not_empty r.hostname h,
          future r.expires_at now e,
        )
        refl

pub on_error_ok :
    {A : Type 0} (wrap : Error → Error) (r : World × Result A) (a : A)
    → (on_error wrap r).1 ≡ ok a
    → (r.1 ≡ ok a) × (on_error wrap r ≡ r)
unfolding on_error
on_error_ok wrap (w, err e) a h = cc
on_error_ok wrap (w, ok b) a h = (h, refl)

-- A custom hostname has the owner on its record.
abbrev pub HasCustom : ⦃c : Encoders⦄ → Bytes → Bytes → World → Bool → Type 0
HasCustom owner hostname w false = Unit {0}
HasCustom owner hostname w true =
    (custom : CustomHostname) × (decode_custom
        (w.keys (key_bytes (custom_hostname hostname))).simple
      ≡ ok (some custom))
    × (custom.client_token ≡ owner)

abbrev pub IsOwner : ⦃c : Encoders⦄ → Bytes → Bytes → World → Type 0
IsOwner owner hostname w =
    Registered owner hostname w × HasCustom owner hostname w (has_dot hostname)

module _ ⦃n : Network⦄ ⦃c : Encoders⦄ where
  custom_owner :
      (owner : Bytes) (o : Option CustomHostname)
      → owns_custom owner o ≡ true
      → (custom : CustomHostname) × (o ≡ some custom) × (custom.client_token ≡ owner)
  unfolding owns_custom
  custom_owner owner none h = cc
  custom_owner owner (some custom) h = (custom, refl, (bytes_beq_iff custom.client_token owner).0 h)

  find_custom-Same : (hostname : Bytes) → Keeps Same (find_custom_hostname hostname)
  unfolding find_custom_hostname
  find_custom-Same hostname w =
      let key = key_bytes (custom_hostname hostname) in
      then-Keeps Same-IsFrame w (get key w) _ (read-Keeps Same-IsFrame key (λ e. ok e.simple) w)
        (λ val. lift-Keeps Same-IsFrame (decode_custom val))

  find_custom_lem :
      (hostname : Bytes) (w : World) (o : Option CustomHostname)
      → (find_custom_hostname hostname w).1 ≡ ok o
      → decode_custom (w.keys (key_bytes (custom_hostname hostname))).simple ≡ ok o
  unfolding find_custom_hostname
  find_custom_lem hostname w o h =
      let key = key_bytes (custom_hostname hostname) in
      let (val, got, rest) = then_ok (get key w) (λ val. lift (decode_custom val)) o h in
      let read : (w.keys key).simple ≡ val = ok_eq (read_lem key (λ e. ok e.simple) w val got) in
      rw read (ap (λ r. r.1) (sym rest) ∙ h)
    where
      ok_eq : {A : Type 0} {a b : A} → ok a ≡ ok b → a ≡ b
      ok_eq e = cc

  registered_if :
      (owner hostname : Bytes) (w : World) (dot owned : Bool)
      → ((if not owned
            then pure false
            else if dot
            then (λ w.
                then_ (find_custom_hostname hostname w) (λ custom. pure (owns_custom owner custom)))
            else pure true)
          w).1
        ≡ ok true
      → (owned ≡ true) × HasCustom owner hostname w dot
  registered_if owner hostname w dot false h = cc
  registered_if owner hostname w false true h = (refl, tt)
  registered_if owner hostname w true true h =
      let (o, got, rest) =
        then_ok (find_custom_hostname hostname w) (λ custom. pure (owns_custom owner custom)) true
          h in
      let owns : owns_custom owner o ≡ true = pure_eq (ap (λ r. r.1) (sym rest) ∙ h) in
      let (custom, shape, holder) = custom_owner owner o owns in
      (refl, (custom, find_custom_lem hostname w o got ∙ ap ok shape, holder))
    where
      pure_eq : {A : Type 0} {a b : A} → ok a ≡ ok b → a ≡ b
      pure_eq e = cc

  owns_hostname_lem :
      (owner hostname : Bytes) (w : World)
      → (owns_hostname owner hostname w).1 ≡ ok true
      → IsOwner owner hostname w
  unfolding owns_hostname owns_registered
  owns_hostname_lem owner hostname w h =
      let key = key_bytes (client_hostnames owner) in
      let w' = (prefix_contains key hostname w).0 in
      let (owned, got, rest) =
        then_ok (prefix_contains key hostname w) (owns_registered owner hostname) true h in
      let (is_owned, custom) =
        registered_if owner hostname w' (has_dot hostname) owned (ap (λ r. r.1) (sym rest) ∙ h) in
      (
        ok_inj (read_lem key (λ e. ok (member hostname e.children)) w owned got) ∙ is_owned,
        HasCustom-before owner hostname w w' (has_dot hostname)
            (read-Keeps Same-IsFrame key (λ e. ok (member hostname e.children)) w) custom,
      )
    where
      ok_inj : {A : Type 0} {a b : A} → ok a ≡ ok b → a ≡ b
      ok_inj e = cc

      HasCustom-before :
          (owner hostname : Bytes) (w w' : World) (dot : Bool)
          → Kept Same w w'
          → HasCustom owner hostname w' dot
          → HasCustom owner hostname w dot
      HasCustom-before owner hostname w w' false k h = tt
      HasCustom-before owner hostname w w' true k h =
          rw (k (key_bytes (custom_hostname hostname))) h

  allowed :
      (owner hostname : Bytes) (owned : Bool) (w : World) (u : Unit {0})
      → ((if owned
            then pure tt
            else fail (Error.twirp "hostname is not registered to the grant owner"))
          w).1
        ≡ ok u
      → owned ≡ true
  allowed owner hostname true w u h = refl
  allowed owner hostname false w u h = cc

  pub verify_authority_lem :
      (owner hostname : Bytes) (w : World) (u : Unit {0})
      → (verify_delegated_authority owner hostname w).1 ≡ ok u
      → IsOwner owner hostname w
  unfolding verify_delegated_authority
  verify_authority_lem owner hostname w u h =
      let (owned, got, rest) =
        then_ok (on_error unavailable (owns_hostname owner hostname w)) _ u h in
      let may = allowed owner hostname owned _ u (ap (λ r. r.1) (sym rest) ∙ h) in
      owns_hostname_lem owner hostname w
        ((on_error_ok unavailable (owns_hostname owner hostname w) owned got).0 ∙ ap ok may)
