-- ===== src/Tun/Server/Withdrawal.antt =====
-- What UnpublishTunnel does to the slots of a hostname.
use specter.Prelude.{
  ℕ, zero, suc, ◌+◌, ◌≤◌, ◌<◌, ◌≡◌, refl, sym, ap, subst, ◌∙◌, inl, inr, List, [], Bytes, All,
  arith,
}
use native.Mathlib.Decide.{dec_lt}
use specter.Errors.{Error, Result, ok, err, wrapped}
use specter.Tun.Keys.{key_bytes, routing, client_lease}
use specter.Tun.Identity.{Node, Caller, Authenticated, extract_authenticated}
use specter.Tun.Messages.{Encoders}
use specter.Tun.Kv.{
  Entry, World, Network, M, delete, put_at, then_, all, values, under_lease, released, release,
  acquire, with_lease,
}
use specter.Tun.Kv.Results.{then_after, values_cons}
use specter.Tun.Changes.{
  IsFrame, Kept, Keeps, Kept-trans, call-Keeps, all-Keeps, LeaseOnly, LeaseOnly-IsFrame,
}
use specter.Tun.Changes.{delete_lem}
use specter.Tun.Server.{
  on_error, unpublish_jobs, delete_routes, unadvertise_tunnel, unpublish_tunnel, require_registered,
  lease_ttl,
}
use specter.Tun.Server.Guard.{
  Registered, Registered-before, require_registered_lem, require-Keeps, release-Keeps,
  acquire-Keeps,
}
use specter.Tun.Server.Reached.{routing-ne-lease}

-- The key is that of the lease, or nothing changes, or the key is one of the three slots of the
-- hostname and loses its value.
pub data Withdrawn (lease hostname k : Bytes) (a b : Entry) : Type 0 where
  leased : k ≡ lease → Withdrawn lease hostname k a b
  same : a ≡ b → Withdrawn lease hostname k a b
  cleared :
      (num : ℕ)
      → 1 ≤ num
      → num < 4
      → k ≡ key_bytes (routing hostname num)
      → b ≡ record a { simple = [] }
      → Withdrawn lease hostname k a b

Withdrawn_joins :
    (lease hostname k : Bytes) (a b d : Entry)
    → Withdrawn lease hostname k a b
    → Withdrawn lease hostname k b d
    → Withdrawn lease hostname k a d
Withdrawn_joins lease hostname k a b d (leased e) h = leased e
Withdrawn_joins lease hostname k a b d (same e) h =
    subst (λ x. Withdrawn lease hostname k x d) (sym e) h
Withdrawn_joins lease hostname k a b d p (leased e) = leased e
Withdrawn_joins lease hostname k a b d p (same e) = subst (λ x. Withdrawn lease hostname k a x) e p
Withdrawn_joins lease hostname k a b d (cleared i l h e p) (cleared j l' h' e' q) =
    cleared j l' h' e' (q ∙ rw p)

pub Withdrawn-IsFrame : (lease hostname : Bytes) → IsFrame (Withdrawn lease hostname)
Withdrawn-IsFrame lease hostname = record {
  stays = λ k a. same refl;
  joins = Withdrawn_joins lease hostname;
}

module _ ⦃n : Network⦄ ⦃c : Encoders⦄ (lease hostname : Bytes) where
  jobs_keep :
      (num left : ℕ)
      → 1 ≤ num
      → num + left ≤ 4
      → All (Keeps (Withdrawn lease hostname)) (unpublish_jobs hostname num left)
  unfolding unpublish_jobs
  jobs_keep num zero l h = tt
  jobs_keep num (suc left) l h = (
    call-Keeps (Withdrawn-IsFrame lease hostname) (key_bytes (routing hostname num)) (put_at [])
        (λ now e. cleared num l (omega arith) refl refl),
    jobs_keep (suc num) left (omega arith) (omega arith),
  )

  -- An empty slot stays empty.
  pub stays_empty :
      (i : ℕ) (a b : Entry)
      → Withdrawn lease hostname (key_bytes (routing hostname i)) a b
      → (key_bytes (routing hostname i) ≡ lease → ⊥)
      → a.simple ≡ []
      → b.simple ≡ []
  stays_empty i a b (leased e) apart h = absurd (apart e)
  stays_empty i a b (same e) apart h = sym (ap (λ (x : Entry). x.simple) e) ∙ h
  stays_empty i a b (cleared j l m e p) apart h = ap (λ (x : Entry). x.simple) p

  jobs_clear :
      (left num i : ℕ) (w : World) (us : List (Unit {0}))
      → 1 ≤ num
      → num + left ≤ 4
      → ((j : ℕ) → key_bytes (routing hostname j) ≡ lease → ⊥)
      → values (all (unpublish_jobs hostname num left) w).1 ≡ ok us
      → num ≤ i
      → i < num + left
      → ((all (unpublish_jobs hostname num left) w).0.keys (key_bytes (routing hostname i))).simple
        ≡ []
  unfolding all unpublish_jobs
  jobs_clear zero num i w us l h apart e m k = absurd (omega arith)
  jobs_clear (suc left) num i w us l h apart e m k =
      let key = key_bytes (routing hostname num) in
      let w1 = (delete key w).0 in
      let jobs = unpublish_jobs hostname (suc num) left in
      let (u, rest, first, others, shape) = values_cons (delete key w).1 (all jobs w1).1 us e in
      elim (dec_lt num i) [
        | yes later ↦
            jobs_clear left (suc num) i w1 rest (omega arith) (omega arith) apart others
              (omega arith) (omega arith)
        | no here ↦
            let p : num ≡ i = omega arith in
            subst (λ j. ((all jobs w1).0.keys (key_bytes (routing hostname j))).simple ≡ []) p
              (stays_empty num (w1.keys key) ((all jobs w1).0.keys key)
                (all-Keeps (Withdrawn-IsFrame lease hostname) jobs w1
                  (jobs_keep (suc num) left (omega arith) (omega arith)) key)
                (apart num) (delete_lem key w u first))
      ]

abbrev pub slot_value : Bytes → ℕ → World → Bytes
slot_value hostname i w = (w.keys (key_bytes (routing hostname i))).simple

-- The client had registered the hostname, its slots are empty, and no other key has changed but
-- that of the lease.
pub record IsWithdrawn (token hostname : Bytes) (w w' : World) : Type 0 where
  pub registered : Registered token hostname w
  pub empty : (i : ℕ) → 1 ≤ i → i < 4 → slot_value hostname i w' ≡ []
  pub rest : Kept (Withdrawn (key_bytes (client_lease token)) hostname) w w'

module _ ⦃n : Network⦄ ⦃c : Encoders⦄ (token hostname : Bytes) where
  abbrev lease : Bytes
  lease = key_bytes (client_lease token)

  abbrev frame : IsFrame (Withdrawn lease hostname)
  frame = Withdrawn-IsFrame lease hostname

  weaken : (w w' : World) → Kept (LeaseOnly lease) w w' → Kept (Withdrawn lease hostname) w w'
  weaken w w' h k = elim (h k) [ inl e ↦ leased e | inr e ↦ same e ]

  apart : (j : ℕ) → key_bytes (routing hostname j) ≡ lease → ⊥
  apart j e = routing-ne-lease hostname token j e

  on_error_after :
      {A : Type 0} (Holds : World → Type 0) (wrap : Error → Error) (r : World × Result A) (a : A)
      → (r.1 ≡ ok a → Holds r.0)
      → (on_error wrap r).1 ≡ ok a
      → Holds (on_error wrap r).0
  unfolding on_error
  on_error_after Holds wrap (w, err e) a g h = cc
  on_error_after Holds wrap (w, ok b) a g h = g h

  deleted :
      (w : World) (us : List (Unit {0}))
      → (delete_routes hostname w).1 ≡ ok us
      → let w' = (delete_routes hostname w).0 in
        ((i : ℕ) → 1 ≤ i → i < 4 → slot_value hostname i w' ≡ [])
        × Kept (Withdrawn lease hostname) w w'
  unfolding delete_routes
  deleted w us h = (
    λ i l m.
        jobs_clear lease hostname 3 1 i w us (omega arith) (omega arith) apart h l (omega arith),
    all-Keeps frame (unpublish_jobs hostname 1 3) w
        (jobs_keep lease hostname 1 3 (omega arith) (omega arith)),
  )

  -- From before the lease was taken until the routes are deleted.
  unadvertised :
      (w v : World) (u : Unit {0})
      → Kept (LeaseOnly lease) w v
      → (unadvertise_tunnel token hostname v).1 ≡ ok u
      → IsWithdrawn token hostname w (unadvertise_tunnel token hostname v).0
  unfolding unadvertise_tunnel
  unadvertised w v u k h =
      then_after (IsWithdrawn token hostname w) (require_registered token hostname v) _ u
        (λ a first h'.
          let w' = (require_registered token hostname v).0 in
          let before =
            Kept-trans (LeaseOnly-IsFrame lease) w v w' k
              (require-Keeps (LeaseOnly-IsFrame lease) token hostname v) in
          then_after (IsWithdrawn token hostname w)
            (on_error (wrapped "internal") (delete_routes hostname w')) _ u
            (λ us second _.
              on_error_after (IsWithdrawn token hostname w) (wrapped "internal")
                (delete_routes hostname w') us
                (λ done.
                  let (empty, rest) = deleted w' us done in
                  record {
                    registered =
                        Registered-before token hostname w v k
                          (require_registered_lem token hostname v a first);
                    empty = empty;
                    rest =
                        Kept-trans frame w w' (delete_routes hostname w').0 (weaken w w' before)
                          rest;
                  })
                second)
            h')
        h

  released-IsWithdrawn :
      (w : World) (r : World × Result ℕ) (wrap : Error → Error) (u : Unit {0})
      → Kept (LeaseOnly lease) w r.0
      → (under_lease lease wrap (unadvertise_tunnel token hostname) r).1 ≡ ok u
      → IsWithdrawn token hostname w
          (under_lease lease wrap (unadvertise_tunnel token hostname) r).0
  unfolding under_lease released
  released-IsWithdrawn w (w', err e) wrap u k h = cc
  released-IsWithdrawn w (w', ok t) wrap u k h =
      let done = unadvertised w w' u k h in
      let v = (unadvertise_tunnel token hostname w').0 in
      let freed = weaken v (release lease t v).0 (release-Keeps lease t v) in
      record {
        registered = done.registered;
        empty = λ i l m.
            stays_empty lease hostname i _ _ (freed (key_bytes (routing hostname i))) (apart i)
              (done.empty i l m);
        rest = Kept-trans frame w v (release lease t v).0 done.rest freed;
      }

  pub unpublish-IsWithdrawn :
      (caller : Caller) (client : Node) (w : World) (u : Unit {0})
      → extract_authenticated caller ≡ ok (token, client)
      → (unpublish_tunnel caller hostname w).1 ≡ ok u
      → IsWithdrawn token hostname w (unpublish_tunnel caller hostname w).0
  unfolding unpublish_tunnel then_ with_lease
  unpublish-IsWithdrawn caller client w u auth h =
      let unpublish : Authenticated → M (Unit {0}) = λ a.
        with_lease (key_bytes (client_lease a.0)) lease_ttl
          (wrapped "error acquiring lease for unpublishing tunnel")
          (unadvertise_tunnel a.0 hostname) in
      subst
        (λ a.
          (then_ (w, a) unpublish).1 ≡ ok u
          → IsWithdrawn token hostname w (then_ (w, a) unpublish).0)
        (sym auth)
        (λ k.
          released-IsWithdrawn w (acquire lease lease_ttl w) _ u (acquire-Keeps lease lease_ttl w)
            k)
        h
