-- ===== src/Tun/Server/Frame.antt =====
-- What PublishTunnel may change: the lease of the client and the routes of the hostname.
use specter.Prelude.{
  ℕ, suc, ◌+◌, ◌≤◌, ◌<◌, ◌≡◌, refl, sym, subst, ◌∙◌, List, [], ◌∷◌, map, Bytes, bytes_eq, length,
  All, arith,
}
use specter.Errors.{Error, Result, ok, err}
use specter.Tun.Keys.{key_bytes, routing, destination_by_tunnel}
use specter.Tun.Identity.{Node}
use specter.Tun.Messages.{TunnelDestination, Encoders}
use specter.Tun.Kv.{Entry, World, Network, call, get, put, then_, put_at}
use specter.Tun.Changes.{Relation, IsFrame, Kept, Keeps, call-Keeps, then-Keeps, all-Keeps}
use specter.Tun.Server.{
  bundle, publish_job, decode_destination, lookup_job, wrap_error_kv, publish_jobs, published_if,
  lookup_destination, lookup_all, publish_all, on_error, lift,
}

module _ ⦃n : Network⦄ {Holds : Relation} (frame : IsFrame Holds) where
  -- A call that reads.
  pub read-Keeps :
      {A : Type 0} (key : Bytes) (answer : Entry → Result A)
      → Keeps Holds (call key (λ now e. (e, answer e)))
  read-Keeps key answer = call-Keeps frame key _ (λ now e. frame.stays key e)

  pub on_error_keeps :
      {A : Type 0} (wrap : Error → Error) (w : World) (r : World × Result A)
      → Kept Holds w r.0
      → Kept Holds w (on_error wrap r).0
  unfolding on_error
  on_error_keeps wrap w (w', err e) h = h
  on_error_keeps wrap w (w', ok a) h = h

  pub lift-Keeps : {A : Type 0} (r : Result A) → Keeps Holds (lift r)
  lift-Keeps r w k = frame.stays k (w.keys k)

  module _ ⦃c : Encoders⦄ where
    pub lookup-Keeps : (key : Bytes) → Keeps Holds (lookup_destination key)
    unfolding lookup_destination
    lookup-Keeps key w =
        then-Keeps frame w (get key w) _ (read-Keeps key (λ e. ok e.simple) w)
          (λ buf. lift-Keeps (decode_destination buf))

    lookup_jobs_keep : (requested : List Node) → All (Keeps Holds) (map lookup_job requested)
    unfolding lookup_job
    lookup_jobs_keep [] = tt
    lookup_jobs_keep (v ∷ vs) = (
      λ w.
          on_error_keeps wrap_error_kv w _
            (lookup-Keeps (key_bytes (destination_by_tunnel v.address)) w),
      lookup_jobs_keep vs,
    )

    pub lookup_all-Keeps : (requested : List Node) → Keeps Holds (lookup_all requested)
    unfolding lookup_all
    lookup_all-Keeps requested w =
        all-Keeps frame (map lookup_job requested) w (lookup_jobs_keep requested)

module _ ⦃n : Network⦄ ⦃c : Encoders⦄ (lease : Bytes) (client : Node) (hostname : Bytes) where
  -- The key is that of the lease, or nothing changes, or the key is a slot of the hostname from
  -- `low` up to below `high` and gets a route to the client.
  pub data Published (low high : ℕ) (k : Bytes) (a b : Entry) : Type 0 where
    leased : k ≡ lease → Published low high k a b
    same : a ≡ b → Published low high k a b
    routed :
        (num : ℕ) (dst : TunnelDestination) (val : Bytes)
        → low ≤ num
        → num < high
        → k ≡ key_bytes (routing hostname num)
        → c.marshal_route (bundle client hostname dst) ≡ ok val
        → b ≡ record a { simple = val }
        → Published low high k a b

  Published_joins :
      (low high : ℕ) (k : Bytes) (a b d : Entry)
      → Published low high k a b
      → Published low high k b d
      → Published low high k a d
  Published_joins low high k a b d (leased e) h = leased e
  Published_joins low high k a b d (same e) h = subst (λ x. Published low high k x d) (sym e) h
  Published_joins low high k a b d p (leased e) = leased e
  Published_joins low high k a b d p (same e) = subst (λ x. Published low high k a x) e p
  Published_joins low high k a b d (routed i x v l h e m p) (routed j y u l' h' e' m' q) =
      routed j y u l' h' e' m' (q ∙ rw p)

  pub Published-IsFrame : (low high : ℕ) → IsFrame (Published low high)
  Published-IsFrame low high = record { stays = λ k a. same refl; joins = Published_joins low high }

  published_if_keeps :
      (Holds : Relation) (dst : TunnelDestination) (w : World) (r : World × Result (Unit {0}))
      → Kept Holds w r.0
      → Kept Holds w (published_if dst r).0
  unfolding published_if
  published_if_keeps Holds dst w (w', err e) h = h
  published_if_keeps Holds dst w (w', ok done) h = h

  publish_val_keeps :
      (low high num : ℕ) (dst : TunnelDestination)
      → low ≤ num
      → num < high
      → (val : Result Bytes) → c.marshal_route (bundle client hostname dst) ≡ val
      → (w : World)
      → Kept
          (Published low high)
          w
          (then_
            (w, val)
            (λ v w'. published_if dst (put (key_bytes (routing hostname num)) v w'))).0
  unfolding then_
  publish_val_keeps low high num dst l h (err e) m w = λ k. same refl
  publish_val_keeps low high num dst l h (ok val) m w =
      published_if_keeps (Published low high) dst w (put (key_bytes (routing hostname num)) val w) (
        call-Keeps (Published-IsFrame low high) (key_bytes (routing hostname num)) (put_at val)
          (λ now e. routed num dst val l h refl m refl) w)

  publish_job-Keeps :
      (low high num : ℕ) (dst : TunnelDestination)
      → low ≤ num
      → num < high
      → Keeps (Published low high) (publish_job client hostname num dst)
  unfolding publish_job
  publish_job-Keeps low high num dst l h w =
      publish_val_keeps low high num dst l h (c.marshal_route (bundle client hostname dst)) refl w

  pub publish_jobs_keep :
      (low high num : ℕ) (dsts : List TunnelDestination)
      → low ≤ num
      → num + length dsts ≤ high
      → All (Keeps (Published low high)) (publish_jobs client hostname num dsts)
  unfolding publish_jobs
  publish_jobs_keep low high num [] l h = tt
  publish_jobs_keep low high num (dst ∷ dsts) l h = (
    publish_job-Keeps low high num dst l (omega arith),
    publish_jobs_keep low high (suc num) dsts (omega arith) (omega arith),
  )

  pub publish_all-Keeps :
      (dsts : List TunnelDestination)
      → length dsts ≤ 3
      → Keeps (Published 1 4) (publish_all client hostname dsts)
  unfolding publish_all
  publish_all-Keeps dsts h w =
      all-Keeps (Published-IsFrame 1 4) (publish_jobs client hostname 1 dsts) w
        (publish_jobs_keep 1 4 1 dsts (omega arith) (omega arith))
