-- ===== src/Tun/Delegations/Removal.antt =====
-- What a revocation may change, and how it may end.
use specter.Prelude.{
  ◌≡◌, ◌⊎◌, refl, sym, ap, subst, ◌∙◌, inl, inr, true, Option, List, [], ◌∷◌, Bytes, bytes_eq,
  Bool-cases, if◌then◌else◌, arith,
}
use specter.Errors.{Error, Result, ok, err}
use specter.Containers.{member}
use specter.Containers.Assoc.{drop}
use specter.Tun.Keys.{key_bytes, key_bytes_injective, delegation, client_delegations}
use specter.Tun.Identity.{Node, Caller, extract_authenticated}
use specter.Tun.Kv.{
  Entry, World, Network, Fate, answered, refused, lost, outcome, call, get, then_, pure,
}
use specter.Tun.Changes.{IsFrame, Kept, Keeps, then-Keeps, Same, Same-IsFrame}
use specter.Tun.Server.Frame.{read-Keeps}
use specter.Tun.Grants.{
  GrantCode, Stored, delegation_not_found, delegation_invalid, is_delegation_id, decode_delegation,
  is_own,
}
use specter.Tun.Delegations.{read_delegation}

-- The key of the grant loses its value, or the index of the owner loses the grant, or nothing
-- changes.
pub data Revokes (owner id k : Bytes) (a b : Entry) : Type 0 where
  same : a ≡ b → Revokes owner id k a b
  cleared : k ≡ key_bytes (delegation id) → b ≡ record a { simple = [] } → Revokes owner id k a b
  unlisted :
      k ≡ key_bytes (client_delegations owner)
      → b ≡ record a { children = drop id a.children }
      → Revokes owner id k a b

grant-ne-index :
    (id owner k : Bytes)
    → k ≡ key_bytes (delegation id)
    → k ≡ key_bytes (client_delegations owner)
    → ⊥
grant-ne-index id owner k p q =
    cc (key_bytes_injective (delegation id) (client_delegations owner) (sym p ∙ q))

drop-drop : (k : Bytes) (s : List Bytes) → drop k (drop k s) ≡ drop k s
drop-drop k [] = refl
drop-drop k (j ∷ s) = ground (arith, drop-drop k s)

Revokes-joins :
    (owner id k : Bytes) (a b d : Entry)
    → Revokes owner id k a b
    → Revokes owner id k b d
    → Revokes owner id k a d
Revokes-joins owner id k a b d (same e) h = subst (λ x. Revokes owner id k x d) (sym e) h
Revokes-joins owner id k a b d h (same e) = subst (λ x. Revokes owner id k a x) e h
Revokes-joins owner id k a b d (cleared p e) (cleared q f) = cleared p (f ∙ rw e)
Revokes-joins owner id k a b d (unlisted p e) (unlisted q f) =
    unlisted p (f ∙ rw e (ap (λ x. record a { children = x }) (drop-drop id a.children)))
Revokes-joins owner id k a b d (cleared p e) (unlisted q f) = absurd (grant-ne-index id owner k p q)
Revokes-joins owner id k a b d (unlisted q f) (cleared p e) = absurd (grant-ne-index id owner k p q)

pub Revokes-IsFrame : (owner id : Bytes) → IsFrame (Revokes owner id)
Revokes-IsFrame owner id = record { stays = λ k a. same refl; joins = Revokes-joins owner id }

-- A key without a value stays so.
pub stays_cleared :
    (owner id k : Bytes) (a b : Entry) → Revokes owner id k a b → a.simple ≡ [] → b.simple ≡ []
stays_cleared owner id k a b (same e) h = ap (λ (x : Entry). x.simple) (sym e) ∙ h
stays_cleared owner id k a b (cleared p e) h = ap (λ (x : Entry). x.simple) e
stays_cleared owner id k a b (unlisted p e) h = ap (λ (x : Entry). x.simple) e ∙ h

module _ ⦃g : GrantCode⦄ where
  abbrev pub stored_at : Bytes → World → Stored
  stored_at id w = decode_delegation id (w.keys (key_bytes (delegation id))).simple

  -- The grant is the owner's, or the owner's index lists it.
  abbrev pub Revocable : Bytes → Bytes → World → Type 0
  Revocable owner id w =
      (is_own owner (stored_at id w) ≡ true)
      ⊎ (member id (w.keys (key_bytes (client_delegations owner))).children ≡ true)

  -- The outcomes of RevokeDelegation: it is refused and nothing changes; or the caller may revoke
  -- the grant, and nothing changes but the grant and its place in the index of the caller, and if
  -- it succeeds no record is left.
  pub data RevokeOutcome (caller : Caller) (id : Bytes) (w : World)
      : World × Result (Option Error) → Type 0 where
    denied : (w' : World) (e : Error) → Kept Same w w' → RevokeOutcome caller id w (w', err e)
    failed :
        (owner : Bytes) (client : Node) (w' : World) (e : Error)
        → extract_authenticated caller ≡ ok (owner, client)
        → Revocable owner id w
        → Kept (Revokes owner id) w w'
        → RevokeOutcome caller id w (w', err e)
    revoked :
        (owner : Bytes) (client : Node) (w' : World) (index : Option Error)
        → extract_authenticated caller ≡ ok (owner, client)
        → Revocable owner id w
        → Kept (Revokes owner id) w w'
        → stored_at id w' ≡ delegation_not_found
        → RevokeOutcome caller id w (w', ok index)

  pub not_found : (id val : Bytes) → val ≡ [] → decode_delegation id val ≡ delegation_not_found
  unfolding decode_delegation
  not_found id val h = rw h refl

module _ ⦃n : Network⦄ ⦃g : GrantCode⦄ where
  read_stored :
      (id : Bytes) (fate : Fate) (key : Bytes) (w : World) (e : Entry) (found : Stored)
      → (then_ (outcome fate key w (e, ok e.simple)) (λ val. pure (decode_delegation id val))).1
        ≡ ok found
      → found ≡ decode_delegation id e.simple
  unfolding then_ outcome
  read_stored id answered key w e found h = cc
  read_stored id (refused f) key w e found h = cc
  read_stored id (lost f) key w e found h = cc

  pub read_delegation_lem :
      (id : Bytes) (w : World) (found : Stored)
      → is_delegation_id id ≡ true
      → (read_delegation id w).1 ≡ ok found
      → found ≡ stored_at id w
  unfolding read_delegation call
  read_delegation_lem id w found valid h =
      read_stored id (n.fate w.calls) (key_bytes (delegation id)) w
        (w.keys (key_bytes (delegation id))) found
        (subst
          (λ b.
            ((if b
                then (λ w.
                    then_ (get (key_bytes (delegation id)) w)
                      (λ val. pure (decode_delegation id val)))
                else pure delegation_invalid)
              w).1
            ≡ ok found)
          valid h)

  pub read_delegation-Same : (id : Bytes) → Keeps Same (read_delegation id)
  unfolding read_delegation
  read_delegation-Same id w = elim (Bool-cases (is_delegation_id id)) [
    | inl e ↦ rw e (
        then-Keeps Same-IsFrame w (get (key_bytes (delegation id)) w) _
          (read-Keeps Same-IsFrame (key_bytes (delegation id)) (λ e. ok e.simple) w)
          (λ val w' k. refl))
    | inr e ↦ rw e (λ k. refl)
  ]
