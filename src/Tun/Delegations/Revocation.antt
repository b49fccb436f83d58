-- ===== src/Tun/Delegations/Revocation.antt =====
-- Who may revoke a grant, and what is left of it.
use specter.Prelude.{
  ◌≡◌, refl, ap, subst, ◌∙◌, inl, inr, Bool, true, false, none, some, [], Bytes, bytes_eq,
  Bool-cases, if◌then◌else◌,
}
use specter.Errors.{Error, Result, ok, err}
use specter.Containers.{member}
use specter.Tun.Keys.{key_bytes, delegation, client_delegations}
use specter.Tun.Identity.{Node, Caller, Authenticated, extract_authenticated}
use specter.Tun.Kv.{
  Entry, World, Network, Fate, answered, refused, lost, outcome, call, delete, prefix_contains,
  prefix_remove, remove_at, put_at, then_, pure, fail,
}
use specter.Tun.Changes.{
  Kept, Keeps, Kept-trans, call-Keeps, then-Keeps, Same, Same-IsFrame, delete_lem,
}
use specter.Tun.Server.{on_error}
use specter.Tun.Server.Frame.{read-Keeps, on_error_keeps}
use specter.Tun.Grants.{GrantCode, Stored, is_delegation_id, decode_delegation, is_own, unavailable}
use specter.Tun.Delegations.{
  index_error, read_delegation, require_own, withdraw_grant, revoke_for, revoke_delegation,
}
use specter.Tun.Delegations.Removal.{
  Revokes, Revokes-IsFrame, stays_cleared, stored_at, Revocable, RevokeOutcome, not_found,
  read_delegation_lem, read_delegation-Same, same, cleared, unlisted, denied, failed, revoked,
}

module _ ⦃n : Network⦄ ⦃g : GrantCode⦄ where
  answer_indexed :
      (fate : Fate) (key : Bytes) (w : World) (e : Entry) (b : Bool) (u : Unit {0})
      → (then_
          (on_error unavailable (outcome fate key w (e, ok b)))
          (λ b. if b then pure tt else fail (Error.twirp "grant is not owned by this client"))).1
        ≡ ok u
      → b ≡ true
  unfolding then_ on_error outcome
  answer_indexed answered key w e true u h = refl
  answer_indexed answered key w e false u h = cc
  answer_indexed (refused f) key w e b u h = cc
  answer_indexed (lost f) key w e b u h = cc

  own_or_indexed :
      (owner id : Bytes) (w : World) (u : Unit {0}) (b : Bool)
      → is_own owner (stored_at id w) ≡ b
      → let index = key_bytes (client_delegations owner) in
        ((if b then pure tt else (λ w.
              then_ (on_error unavailable (prefix_contains index id w)) (λ b.
                if b then pure tt else fail (Error.twirp "grant is not owned by this client"))))
            w).1
          ≡ ok u
        → Revocable owner id w
  unfolding call
  own_or_indexed owner id w u true e h = inl e
  own_or_indexed owner id w u false e h = inr (answer_indexed (n.fate w.calls) _ w _ _ u h)

  require_own_lem :
      (owner id : Bytes) (w : World) (u : Unit {0})
      → (require_own owner id (stored_at id w) w).1 ≡ ok u
      → Revocable owner id w
  unfolding require_own call
  require_own_lem owner id w u h =
      own_or_indexed owner id w u (is_own owner (stored_at id w)) refl h

  if_Same : (b : Bool) (e : Error) → Keeps Same (if b then pure tt else fail e)
  if_Same true e w k = refl
  if_Same false e w k = refl

  require_own-Same : (owner id : Bytes) (found : Stored) → Keeps Same (require_own owner id found)
  unfolding require_own
  require_own-Same owner id found w = elim (Bool-cases (is_own owner found)) [
    | inl own ↦ rw own (λ k. refl)
    | inr other ↦ rw other (
        let index = key_bytes (client_delegations owner) in
        then-Keeps Same-IsFrame w (on_error unavailable (prefix_contains index id w)) _
          (on_error_keeps Same-IsFrame unavailable w _
            (read-Keeps Same-IsFrame index (λ e. ok (member id e.children)) w))
          (λ b. if_Same b (Error.twirp "grant is not owned by this client")))
  ]

  weaken : (owner id : Bytes) (w w' : World) → Kept Same w w' → Kept (Revokes owner id) w w'
  weaken owner id w w' h k = same (h k)

  module _ (caller : Caller) (owner id : Bytes) (client : Node)
      (auth : extract_authenticated caller ≡ ok (owner, client)) where
    indexed_outcome :
        (w v : World) (r : World × Result (Unit {0}))
        → Revocable owner id w
        → Kept (Revokes owner id) w v
        → (v.keys (key_bytes (delegation id))).simple ≡ []
        → Kept (Revokes owner id) v r.0
        → RevokeOutcome caller id w (index_error r)
    unfolding index_error
    indexed_outcome w v (w', err e) may k empty l =
        revoked owner client w' (some e) auth may (Kept-trans (Revokes-IsFrame owner id) w v w' k l)
          (not_found id _ (stays_cleared owner id _ _ _ (l (key_bytes (delegation id))) empty))
    indexed_outcome w v (w', ok u) may k empty l =
        revoked owner client w' none auth may (Kept-trans (Revokes-IsFrame owner id) w v w' k l)
          (not_found id _ (stays_cleared owner id _ _ _ (l (key_bytes (delegation id))) empty))

    deleted_outcome :
        (w : World) (r : World × Result (Unit {0}))
        → Revocable owner id w
        → Kept (Revokes owner id) w r.0
        → ((u : Unit {0}) → r.1 ≡ ok u → (r.0.keys (key_bytes (delegation id))).simple ≡ [])
        → RevokeOutcome caller id w (
            then_
              (on_error unavailable r)
              (λ u w. index_error (prefix_remove (key_bytes (client_delegations owner)) id w)))
    unfolding then_ on_error
    deleted_outcome w (w', err e) may k empty = failed owner client w' (unavailable e) auth may k
    deleted_outcome w (w', ok u) may k empty =
        let index = key_bytes (client_delegations owner) in
        indexed_outcome w w' (prefix_remove index id w') may k (empty u refl) (
          call-Keeps (Revokes-IsFrame owner id) index (remove_at id) (λ now e. unlisted refl refl)
            w')

    own_outcome :
        (w : World) (r : World × Result (Unit {0}))
        → Kept Same w r.0
        → ((u : Unit {0}) → r.1 ≡ ok u → Revocable owner id w)
        → RevokeOutcome caller id w (then_ r (λ u. withdraw_grant owner id))
    unfolding then_ withdraw_grant
    own_outcome w (w', err e) k may = denied w' e k
    own_outcome w (w', ok u) k may =
        let key = key_bytes (delegation id) in
        let frame = Revokes-IsFrame owner id in
        deleted_outcome w (delete key w') (may u refl)
          (Kept-trans frame w w' (delete key w').0 (weaken owner id w w' k)
            (call-Keeps frame key (put_at []) (λ now e. cleared refl refl) w'))
          (λ v h. delete_lem key w' v h)

    Revocable-before :
        (w w' : World) → Kept Same w w' → Revocable owner id w' → Revocable owner id w
    Revocable-before w w' k h =
        rw (k (key_bytes (delegation id)), k (key_bytes (client_delegations owner))) h

    found_outcome :
        (w : World) (r : World × Result Stored)
        → Kept Same w r.0
        → ((found : Stored) → r.1 ≡ ok found → found ≡ stored_at id w)
        → RevokeOutcome caller id w (
            then_
              (on_error unavailable r)
              (λ found w. then_ (require_own owner id found w) (λ u. withdraw_grant owner id)))
    unfolding then_ on_error
    found_outcome w (w', err e) k read = denied w' (unavailable e) k
    found_outcome w (w', ok found) k read =
        let there : found ≡ stored_at id w' =
          read found refl
          ∙ ap (λ (x : Entry). decode_delegation id x.simple) (k (key_bytes (delegation id))) in
        own_outcome w (require_own owner id found w')
          (Kept-trans Same-IsFrame w w' (require_own owner id found w').0 k
            (require_own-Same owner id found w'))
          (λ u h. Revocable-before w w' k (
            require_own_lem owner id w' u
              (subst (λ x. (require_own owner id x w').1 ≡ ok u) there h)))

    revoke_outcome :
        (w : World)
        → RevokeOutcome caller id w (
            (if is_delegation_id id
                then revoke_for owner id
                else fail (Error.twirp "invalid grant ID"))
              w)
    unfolding revoke_for
    revoke_outcome w = elim (Bool-cases (is_delegation_id id)) [
      | inl valid ↦ rw valid (
          found_outcome w (read_delegation id w) (read_delegation-Same id w)
            (λ found h. read_delegation_lem id w found valid h))
      | inr invalid ↦ rw invalid (denied w (Error.twirp "invalid grant ID") (λ k. refl))
    ]

  authenticated_outcome :
      (caller : Caller) (id : Bytes) (w : World) (a : Result Authenticated)
      → extract_authenticated caller ≡ a
      → RevokeOutcome caller id w (
          then_
            (w, a)
            (λ auth.
              if is_delegation_id id
              then revoke_for auth.0 id
              else fail (Error.twirp "invalid grant ID")))
  unfolding then_
  authenticated_outcome caller id w (err e) h = denied w e (λ k. refl)
  authenticated_outcome caller id w (ok (owner, client)) h =
      revoke_outcome caller owner id client h w

  -- RevokeDelegation, whatever becomes of its calls to the ring, ends in one of these outcomes:
  -- it fails and nothing changes; or the caller is the owner on the record of the grant, or has
  -- the grant in its index, and no key changes but that of the grant, which loses its value, and
  -- the index of the caller, which loses the grant, and the call fails; or the same and it
  -- succeeds, and then there is no record of the grant.
  pub revoke_delegation-RevokeOutcome :
      (caller : Caller) (id : Bytes) (w : World)
      → RevokeOutcome caller id w (revoke_delegation caller id w)
  unfolding revoke_delegation
  revoke_delegation-RevokeOutcome caller id w =
      authenticated_outcome caller id w (extract_authenticated caller) refl
