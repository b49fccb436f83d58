-- ===== src/Tun/Routes/Lookup.antt =====
-- What a lookup finds, from what the slots of the hostname hold.
use specter.Prelude.{
  ℕ, zero, suc, ◌+◌, ◌≤◌, ◌<◌, ◌≡◌, ◌⊎◌, refl, sym, ap, ◌∙◌, inl, inr, false, none, some, List, [],
  ◌∷◌, Bytes, length, Bool-cases, ◌==◌, arith,
}
use native.Mathlib.Decide.{dec_lt}
use specter.Errors.{Result, ok, err}
use specter.Tun.Keys.{key_bytes, routing}
use specter.Tun.Messages.{TunnelRoute, Encoders}
use specter.Tun.Kv.{Entry, World, Network, Fate, answered, call, get, outcome, then_, all}
use specter.Tun.Changes.{Keeps, then-Keeps, Same, Same-IsFrame}
use specter.Tun.Server.{Server, lift}
use specter.Tun.Server.Withdrawal.{slot_value}
use specter.Tun.Server.Frame.{read-Keeps, lift-Keeps}
use specter.Tun.Routes.{
  Found, absent, found, count_absent, count_failed, found_routes, before, insert_sorted,
  sort_routes, loaded_from, err_destination_not_found, decode_route, route_job, route_jobs,
  load_registered,
}

-- A route is among others.
abbrev pub Has : TunnelRoute → List TunnelRoute → Type 0
Has r [] = ⊥
Has r (x ∷ xs) = (x ≡ r) ⊎ Has r xs

Has-insert_sorted :
    (address : Bytes) (q r : TunnelRoute) (xs : List TunnelRoute)
    → Has r (q ∷ xs)
    → Has r (insert_sorted address q xs)
unfolding insert_sorted
Has-insert_sorted address q r [] h = h
Has-insert_sorted address q r (x ∷ xs) h = elim (Bool-cases (before address x q)) [
  | inl first ↦ rw first (elim h [
    | inl e ↦ inr (Has-insert_sorted address q r xs (inl e))
    | inr (inl e) ↦ inl e
    | inr (inr m) ↦ inr (Has-insert_sorted address q r xs (inr m))
  ])
  | inr later ↦ rw later h
]

Has-sort_routes :
    (address : Bytes) (r : TunnelRoute) (xs : List TunnelRoute)
    → Has r xs
    → Has r (sort_routes address xs)
unfolding sort_routes
Has-sort_routes address r [] h = h
Has-sort_routes address r (x ∷ xs) (inl e) =
    Has-insert_sorted address x r (sort_routes address xs) (inl e)
Has-sort_routes address r (x ∷ xs) (inr m) =
    Has-insert_sorted address x r (sort_routes address xs) (inr (Has-sort_routes address r xs m))

-- One of the answers is a route.
abbrev Answers : TunnelRoute → List (Result Found) → Type 0
Answers r [] = ⊥
Answers r (x ∷ xs) = ((size : ℕ) × (x ≡ ok (found r size))) ⊎ Answers r xs

counts_le : (rs : List (Result Found)) → count_absent rs + count_failed rs ≤ length rs
unfolding count_absent count_failed
counts_le [] = omega arith
counts_le (err e ∷ rs) = omega (arith, counts_le rs)
counts_le (ok absent ∷ rs) = omega (arith, counts_le rs)
counts_le (ok (found q size) ∷ rs) = omega (arith, counts_le rs)

Answers-counted :
    (r : TunnelRoute) (rs : List (Result Found))
    → Answers r rs
    → (count_absent rs + count_failed rs < length rs) × Has r (found_routes rs)
unfolding count_absent count_failed found_routes
Answers-counted r [] h = absurd h
Answers-counted r (err e ∷ rs) (inl (size, h)) = cc
Answers-counted r (err e ∷ rs) (inr h) = let (n, m) = Answers-counted r rs h in (omega arith, m)
Answers-counted r (ok absent ∷ rs) (inl (size, h)) = cc
Answers-counted r (ok absent ∷ rs) (inr h) = let (n, m) = Answers-counted r rs h in (omega arith, m)
Answers-counted r (ok (found q size) ∷ rs) (inr h) =
    let (n, m) = Answers-counted r rs h in (omega arith, inr m)
Answers-counted r (ok (found q size) ∷ rs) (inl (size', h)) =
    (omega (arith, counts_le rs), inl (cc))

ne_test : (a b : ℕ) → a < b → (b == a) ≡ false
ne_test a b h = ground arith

loaded_found :
    (address : Bytes) (rs : List (Result Found)) (r : TunnelRoute)
    → length rs ≡ 3
    → Answers r rs
    → ((loaded_from address rs).failure ≡ none) × Has r (loaded_from address rs).routes
unfolding loaded_from
loaded_found address rs r n h =
    let (counted, m) = Answers-counted r rs h in
    rw
      (
        ne_test (count_absent rs) 3 (omega arith),
        ne_test (count_absent rs + count_failed rs) 3 (omega arith),
      )
      (refl, Has-sort_routes address r (found_routes rs) m)

-- Every call is answered.
abbrev pub Answering : Network → Type 0
Answering n = (i : ℕ) → n.fate i ≡ answered

module _ ⦃n : Network⦄ ⦃c : Encoders⦄ (answering : Answering n) (hostname : Bytes) where
  outcome-answered :
      (fate : Fate) (key : Bytes) (w : World) (r : Entry × Result Bytes)
      → fate ≡ answered
      → (outcome fate key w r).1 ≡ r.1
  unfolding outcome
  outcome-answered fate key w r h = ground arith

  job_same : (k : ℕ) → Keeps Same (route_job hostname k)
  unfolding route_job
  job_same k w =
      let key = key_bytes (routing hostname k) in
      then-Keeps Same-IsFrame w (get key w) (λ val. lift (decode_route val))
        (read-Keeps Same-IsFrame key (λ e. ok e.simple) w)
        (λ val. lift-Keeps Same-IsFrame (decode_route val))

  then_lift :
      (r : World × Result Bytes) (val : Bytes)
      → r.1 ≡ ok val
      → (then_ r (λ v. lift (decode_route v))).1 ≡ decode_route val
  unfolding then_
  then_lift (w, err e) val h = cc
  then_lift (w, ok v) val h = cc

  job_answer :
      (k : ℕ) (w : World) → (route_job hostname k w).1 ≡ decode_route (slot_value hostname k w)
  unfolding route_job call
  job_answer k w =
      let key = key_bytes (routing hostname k) in
      then_lift (get key w) (slot_value hostname k w)
        (outcome-answered (n.fate w.calls) key w _ (answering w.calls))

  value_later :
      (k i : ℕ) (w : World)
      → slot_value hostname i (route_job hostname k w).0 ≡ slot_value hostname i w
  value_later k i w =
      sym (ap (λ (x : Entry). x.simple) (job_same k w (key_bytes (routing hostname i))))

  jobs_answer :
      (left k i : ℕ) (w : World) (r : TunnelRoute) (size : ℕ)
      → k ≤ i
      → i < k + left
      → decode_route (slot_value hostname i w) ≡ ok (found r size)
      → Answers r (all (route_jobs hostname k left) w).1
  unfolding all route_jobs
  jobs_answer zero k i w r size l h e = absurd (omega arith)
  jobs_answer (suc left) k i w r size l h e = elim (dec_lt k i) [
    | yes later ↦ inr (
        jobs_answer left (suc k) i (route_job hostname k w).0 r size (omega arith) (omega arith)
          (ap decode_route (value_later k i w) ∙ e))
    | no here ↦ inl (
      size,
      job_answer k w
          ∙ ap (λ j. decode_route (slot_value hostname j w)) (let p : k ≡ i = omega arith in p)
          ∙ e,
    )
  ]

  jobs_absent :
      (left k : ℕ) (w : World)
      → ((i : ℕ) → k ≤ i → i < k + left → slot_value hostname i w ≡ [])
      → count_absent (all (route_jobs hostname k left) w).1 ≡ left
  unfolding all route_jobs count_absent decode_route
  jobs_absent zero k w h = refl
  jobs_absent (suc left) k w h =
      let w' = (route_job hostname k w).0 in
      rw (job_answer k w ∙ ap decode_route (h k (omega arith) (omega arith))) (
        ap suc (
          jobs_absent left (suc k) w'
            (λ i a b. value_later k i w ∙ h i (omega arith) (omega arith))))

  length-jobs : (left k : ℕ) (w : World) → length (all (route_jobs hostname k left) w).1 ≡ left
  unfolding all route_jobs
  length-jobs zero k w = refl
  length-jobs (suc left) k w = omega (arith, length-jobs left (suc k) (route_job hostname k w).0)

  -- A slot with a route that decodes: the lookup finds it.
  pub load_found :
      (s : Server) (i : ℕ) (w : World) (r : TunnelRoute) (size : ℕ)
      → 1 ≤ i
      → i < 4
      → decode_route (slot_value hostname i w) ≡ ok (found r size)
      → let l = (load_registered s hostname w).1 in (l.failure ≡ none) × Has r l.routes
  unfolding load_registered
  load_found s i w r size l h e =
      loaded_found s.tunnel_identity.address (all (route_jobs hostname 1 3) w).1 r
        (length-jobs 3 1 w) (jobs_answer 3 1 i w r size l (omega arith) e)

  -- Empty slots: the lookup finds no tunnel.
  pub load_absent :
      (s : Server) (w : World)
      → ((i : ℕ) → 1 ≤ i → i < 4 → slot_value hostname i w ≡ [])
      → (load_registered s hostname w).1.failure ≡ some err_destination_not_found
  unfolding load_registered loaded_from
  load_absent s w h = rw (jobs_absent 3 1 w (λ i a b. h i a (omega arith))) refl
