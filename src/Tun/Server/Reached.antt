-- ===== src/Tun/Server/Reached.antt =====
-- A node that PublishTunnel names has its route in a slot of the hostname.
use specter.Prelude.{
  ℕ, suc, ◌+◌, ◌≤◌, ◌<◌, ◌≡◌, ◌≢◌, refl, sym, ap, subst, ◌∙◌, inl, inr, Bool, true, false,
  if◌then◌else◌, ltb, List, [], ◌∷◌, Bytes, Option, none, some, length, somes, All, arith,
}
use specter.Prelude.Int.{ℤ}
use specter.Errors.{Error, Result, ok, err}
use specter.Tun.Keys.{key_bytes, key_bytes_injective, routing, client_lease}
use specter.Tun.Identity.{Node, Caller, Authenticated, extract_authenticated}
use specter.Tun.Messages.{TunnelDestination, Encoders}
use specter.Tun.Kv.{
  Entry, World, Network, M, Fate, answered, refused, lost, outcome, call, put, put_at, then_,
  under_lease, released, release, acquire, with_lease, fail, all, values,
}
use specter.Tun.Kv.Results.{then_ok, values_cons, no_values}
use specter.Tun.Changes.{set_entry_self, all-Keeps}
use specter.Tun.Server.{
  bundle, publish_job, publish_jobs, published_if, published_nodes, non_empty, publish_all,
  publish_leased, publish_requested, publish_tunnel, require_registered, lookup_all,
  num_redundant_links, lease_ttl, unique_nodes, wrap_error_kv,
}
use specter.Tun.Server.Frame.{Published-IsFrame, same, leased, routed, publish_jobs_keep}
use specter.Tun.Server.Guard.{length-lookup_all, release-Keeps}

pub routing-ne-lease :
    (h t : Bytes) (i : ℕ) → key_bytes (routing h i) ≡ key_bytes (client_lease t) → ⊥
routing-ne-lease h t i e = cc (key_bytes_injective (routing h i) (client_lease t) e)

routing_slot : (h : Bytes) (i j : ℕ) → key_bytes (routing h i) ≡ key_bytes (routing h j) → i ≡ j
routing_slot h i j e = cc (key_bytes_injective (routing h i) (routing h j) e)

module _ ⦃n : Network⦄ ⦃c : Encoders⦄ (client : Node) (hostname : Bytes) where
  -- Of the slots from `low` up to below `high`, one holds a route to the client at the node.
  pub record Reached (w : World) (low high : ℕ) (v : Node) : Type 0 where
    pub slot : ℕ
    pub dst : TunnelDestination
    pub val : Bytes
    pub from : low ≤ slot
    pub below : slot < high
    pub at_node : dst.tunnel ≡ some v
    pub written : c.marshal_route (bundle client hostname dst) ≡ ok val
    pub stored : (w.keys (key_bytes (routing hostname slot))).simple ≡ val

  -- Reached in a later world, where the slot is as it was.
  moved :
      (w w' : World) (low low' high high' : ℕ) (v : Node)
      → low' ≤ low
      → high ≤ high'
      → ((i : ℕ)
          → low ≤ i
          → i < high
          → w.keys (key_bytes (routing hostname i)) ≡ w'.keys (key_bytes (routing hostname i)))
      → Reached w low high v
      → Reached w' low' high' v
  moved w w' low low' high high' v l h e r = record {
    slot = r.slot;
    dst = r.dst;
    val = r.val;
    from = omega (arith, r.from);
    below = omega (arith, r.below);
    at_node = r.at_node;
    written = r.written;
    stored = sym (ap (λ (x : Entry). x.simple) (e r.slot r.from r.below)) ∙ r.stored;
  }

  moved-All :
      (w w' : World) (low low' high high' : ℕ) (vs : List Node)
      → low' ≤ low
      → high ≤ high'
      → ((i : ℕ)
          → low ≤ i
          → i < high
          → w.keys (key_bytes (routing hostname i)) ≡ w'.keys (key_bytes (routing hostname i)))
      → All (Reached w low high) vs
      → All (Reached w' low' high') vs
  moved-All w w' low low' high high' [] l h e r = tt
  moved-All w w' low low' high high' (v ∷ vs) l h e r =
      (moved w w' low low' high high' v l h e r.0, moved-All w w' low low' high high' vs l h e r.1)

  -- A Put that is answered has written.
  put_answered :
      (fate : Fate) (key val : Bytes) (now : ℤ) (w : World) (dst : TunnelDestination) (v : Node)
      → let r = published_if dst (outcome fate key w (put_at val now (w.keys key))) in
        r.1 ≡ ok (some v) → (dst.tunnel ≡ some v) × ((r.0.keys key).simple ≡ val)
  unfolding published_if outcome
  put_answered answered key val now w dst v h =
      (cc, ap (λ (x : Entry). x.simple) (set_entry_self key (put_at val now (w.keys key)).0 w.keys))
  put_answered (refused f) key val now w dst v h = cc
  put_answered (lost f) key val now w dst v h = cc

  job_val_reached :
      (num : ℕ) (dst : TunnelDestination) (w : World) (v : Node) (m : Result Bytes)
      → c.marshal_route (bundle client hostname dst) ≡ m
      → let r =
          then_
            (w, m)
            (λ val w'. published_if dst (put (key_bytes (routing hostname num)) val w')) in
        r.1 ≡ ok (some v) → Reached r.0 num (suc num) v
  unfolding then_ call
  job_val_reached num dst w v (err e) m h = cc
  job_val_reached num dst w v (ok val) m h =
      let (at_node, stored) =
        put_answered (n.fate w.calls) (key_bytes (routing hostname num)) val (n.clock w.calls) w dst
          v h in
      record {
        slot = num;
        dst = dst;
        val = val;
        from = omega arith;
        below = omega arith;
        at_node = at_node;
        written = m;
        stored = stored;
      }

  job_reached :
      (num : ℕ) (dst : TunnelDestination) (w : World) (v : Node)
      → (publish_job client hostname num dst w).1 ≡ ok (some v)
      → Reached (publish_job client hostname num dst w).0 num (suc num) v
  unfolding publish_job
  job_reached num dst w v h =
      job_val_reached num dst w v (c.marshal_route (bundle client hostname dst)) refl h

  -- The jobs from a slot on leave the slots before it alone.
  later_jobs :
      (num i : ℕ) (dsts : List TunnelDestination) (w : World)
      → i < num
      → w.keys (key_bytes (routing hostname i))
        ≡ (all (publish_jobs client hostname num dsts) w).0.keys (key_bytes (routing hostname i))
  later_jobs num i dsts w h =
      let lease = key_bytes (client_lease []) in
      let high = num + length dsts in
      let key = key_bytes (routing hostname i) in
      let frame = Published-IsFrame lease client hostname num high in
      elim (all-Keeps frame (publish_jobs client hostname num dsts) w
        (publish_jobs_keep lease client hostname num high num dsts (omega arith) (omega arith))
        key) [
          | leased e ↦ absurd (routing-ne-lease hostname [] i e)
          | same e ↦ e
          | routed j dst val l h' e m p ↦ absurd (omega (arith, routing_slot hostname i j e))
        ]

  first_reached :
      (num : ℕ) (w : World) (o : Option Node) (rest : List (Option Node)) (high : ℕ)
      → suc num ≤ high
      → ((v : Node) → o ≡ some v → Reached w num (suc num) v)
      → All (Reached w num high) (somes rest)
      → All (Reached w num high) (somes (o ∷ rest))
  first_reached num w none rest high l h r = r
  first_reached num w (some v) rest high l h r =
      (moved w w num num (suc num) high v (omega arith) l (λ i a b. refl) (h v refl), r)

  jobs_reached :
      (num : ℕ) (dsts : List TunnelDestination) (w : World) (nodes : List (Option Node))
      → values (all (publish_jobs client hostname num dsts) w).1 ≡ ok nodes
      → All
          (Reached (all (publish_jobs client hostname num dsts) w).0 num (num + length dsts))
          (somes nodes)
  unfolding all publish_jobs
  jobs_reached num [] w nodes h =
      subst (λ x. All (Reached w num (num + 0)) (somes x)) (no_values nodes h) tt
  jobs_reached num (dst ∷ dsts) w nodes h =
      let w1 = (publish_job client hostname num dst w).0 in
      let jobs = publish_jobs client hostname (suc num) dsts in
      let w' = (all jobs w1).0 in
      let high = num + suc (length dsts) in
      let (o, rest, first, others, shape) =
        values_cons (publish_job client hostname num dst w).1 (all jobs w1).1 nodes h in
      let later =
        moved-All w' w' (suc num) num (suc num + length dsts) high (somes rest) (omega arith)
          (omega arith) (λ i a b. refl) (jobs_reached (suc num) dsts w1 rest others) in
      subst (λ x. All (Reached w' num high) (somes x)) (sym shape)
        (first_reached num w' o rest high (omega arith)
          (λ v e.
            moved w1 w' num num (suc num) (suc num) v (omega arith) (omega arith)
              (λ i a b. later_jobs (suc num) i dsts w1 b)
              (job_reached num dst w v (first ∙ ap ok e)))
          later)

  non_empty_ok : (xs vs : List Node) → non_empty xs ≡ ok vs → (vs ≡ xs) × (vs ≢ [])
  unfolding non_empty
  non_empty_ok [] vs h = cc
  non_empty_ok (x ∷ xs) vs h = (cc, λ e. cc)

  published_ok :
      (r : Result (List (Option Node))) (vs : List Node)
      → published_nodes r ≡ ok vs
      → (nodes : List (Option Node)) × (r ≡ ok nodes) × (vs ≡ somes nodes) × (vs ≢ [])
  unfolding published_nodes
  published_ok (err e) vs h = cc
  published_ok (ok nodes) vs h =
      let (shape, filled) = non_empty_ok (somes nodes) vs h in (nodes, refl, shape, filled)

  abbrev pub AllReached : World → List Node → Type 0
  AllReached w vs = All (Reached w 1 4) vs × (vs ≢ [])

  publish_all_reached :
      (dsts : List TunnelDestination) (w : World) (vs : List Node)
      → length dsts ≤ 3
      → (publish_all client hostname dsts w).1 ≡ ok vs
      → AllReached (publish_all client hostname dsts w).0 vs
  unfolding publish_all
  publish_all_reached dsts w vs l h =
      let jobs = publish_jobs client hostname 1 dsts in
      let (nodes, e, shape, filled) = published_ok (values (all jobs w).1) vs h in
      let w' = (all jobs w).0 in
      (
        moved-All w' w' 1 1 (1 + length dsts) 4 vs (omega arith) (omega arith) (λ i a b. refl)
            (subst (All (Reached w' 1 (1 + length dsts))) (sym shape)
              (jobs_reached 1 dsts w nodes e)),
        filled,
      )

  leased_reached :
      (token : Bytes) (requested : List Node) (w : World) (vs : List Node)
      → length requested ≤ 3
      → (publish_leased token client hostname requested w).1 ≡ ok vs
      → AllReached (publish_leased token client hostname requested w).0 vs
  unfolding publish_leased
  leased_reached token requested w vs l h =
      let checked = require_registered token hostname w in
      let (u, _, p) =
        then_ok checked (λ u w'. then_ (lookup_all requested w') (publish_all client hostname)) vs
          h in
      let (dsts, e, q) =
        then_ok (lookup_all requested checked.0) (publish_all client hostname) vs
          (sym (ap (λ x. x.1) p) ∙ h) in
      subst (λ (x : World × Result (List Node)). AllReached x.0 vs) (sym (p ∙ q))
        (publish_all_reached dsts (lookup_all requested checked.0).0 vs
          (omega (arith, length-lookup_all requested checked.0 e))
          (sym (ap (λ x. x.1) (p ∙ q)) ∙ h))

  under_lease_reached :
      (token : Bytes) (requested : List Node) (r : World × Result ℕ) (vs : List Node)
      → length requested ≤ 3
      → let r' =
          under_lease
            (key_bytes (client_lease token))
            wrap_error_kv
            (publish_leased token client hostname requested)
            r in
        r'.1 ≡ ok vs → AllReached r'.0 vs
  unfolding under_lease released
  under_lease_reached token requested (w, err e) vs l h = cc
  under_lease_reached token requested (w, ok t) vs l h =
      let w' = (publish_leased token client hostname requested w).0 in
      let lease = key_bytes (client_lease token) in
      let (routes, filled) = leased_reached token requested w vs l h in
      (
        moved-All w' (release lease t w').0 1 1 4 4 vs (omega arith) (omega arith)
            (λ i a b. elim (release-Keeps lease t w' (key_bytes (routing hostname i))) [
              | inl e ↦ absurd (routing-ne-lease hostname token i e)
              | inr e ↦ e
            ])
            routes,
        filled,
      )

  tests_reached :
      (many few : Bool) (e f : Error) (body : M (List Node)) (w : World) (vs : List Node)
      → (many ≡ false → (body w).1 ≡ ok vs → AllReached (body w).0 vs)
      → let r = (if many then fail e else if few then fail f else body) w in
        r.1 ≡ ok vs → AllReached r.0 vs
  tests_reached true few e f body w vs good h = cc
  tests_reached false true e f body w vs good h = cc
  tests_reached false false e f body w vs good h = good refl h

  requested_reached :
      (token : Bytes) (requested : List Node) (w : World) (vs : List Node)
      → (publish_requested token client hostname requested w).1 ≡ ok vs
      → AllReached (publish_requested token client hostname requested w).0 vs
  unfolding publish_requested with_lease
  requested_reached token requested w vs h =
      let lease = key_bytes (client_lease token) in
      tests_reached (ltb num_redundant_links (length requested)) (ltb (length requested) 1) _ _
        (with_lease lease lease_ttl wrap_error_kv (publish_leased token client hostname requested))
        w vs
        (λ fits. under_lease_reached token requested (acquire lease lease_ttl w) vs (ground arith))
        h

  pub publish_reached :
      (caller : Caller) (token : Bytes) (servers : List (Option Node)) (w : World) (vs : List Node)
      → extract_authenticated caller ≡ ok (token, client)
      → (publish_tunnel caller hostname servers w).1 ≡ ok vs
      → AllReached (publish_tunnel caller hostname servers w).0 vs
  unfolding publish_tunnel then_
  publish_reached caller token servers w vs auth h =
      let publish : Authenticated → M (List Node) =
        λ a. publish_requested a.0 a.1 hostname (unique_nodes servers) in
      subst (λ a. (then_ (w, a) publish).1 ≡ ok vs → AllReached (then_ (w, a) publish).0 vs)
        (sym auth) (λ k. requested_reached token (unique_nodes servers) w vs k) h
