-- ===== src/Ring/SuccList.antt =====
-- MakeSuccListByID and MakeSuccListByAddress of spec/chord/chord.go: one loop over two keys.
use specter.Prelude.{
  ℕ, suc, ◌+◌, ◌≤◌, ◌<◌, ◌≡◌, refl, Bool, true, false, ◌||◌, not, Option, none, some, List, [], ◌∷◌,
  map, arith, leb, if◌then◌else◌, if_both, Eq, ◌=?◌, length, somes, nat_eq, bytes_eq,
}
use specter.VNode.{VNode}

-- The entries of the second list in their order, some left out.
pub data Subsequence {A : Type 0} : List A → List A → Type 0 where
  done : Subsequence [] []
  skip : {x : A} {xs ys : List A} → Subsequence xs ys → Subsequence xs (x ∷ ys)
  keep : {x : A} {xs ys : List A} → Subsequence xs ys → Subsequence (x ∷ xs) (x ∷ ys)

module _ {A : Type 0} where
  nothing_kept : (ys : List A) → Subsequence [] ys
  nothing_kept [] = done
  nothing_kept (y ∷ ys) = skip (nothing_kept ys)

module _ {K : Type 0} ⦃e : Eq K⦄ where
  -- A lookup in the map `seen`.
  abbrev pub contains : K → List K → Bool
  contains k [] = false
  contains k (j ∷ js) = (k =? j) || contains k js

module _ {A K : Type 0} ⦃e : Eq K⦄ (key : A → K) where
  -- The loop over `successors`: `len` is the length of `succList`, and the result is what the
  -- remaining rounds append to it.
  succ_loop : ℕ → ℕ → List K → List (Option A) → List A
  succ_loop max_len len seen [] = []
  succ_loop max_len len seen (none ∷ rest) =
      if leb max_len len then [] else succ_loop max_len len seen rest
  succ_loop max_len len seen (some v ∷ rest) =
      let skipped = succ_loop max_len len seen rest in
      let kept = v ∷ succ_loop max_len (suc len) (key v ∷ seen) rest in
      if leb max_len len then [] else if contains (key v) seen then skipped else kept

  unfoldable pub make_succ_list : A → List (Option A) → ℕ → List A
  unfolding succ_loop
  make_succ_list immediate successors max_len =
      immediate ∷ succ_loop max_len 1 (key immediate ∷ []) successors

  abbrev pub Distinct : List A → Type 0
  Distinct [] = Unit
  Distinct (x ∷ xs) = (contains (key x) (map key xs) ≡ false) × Distinct xs

  -- A key that was seen does not come again.
  succ_loop_fresh :
      (max_len len : ℕ) (seen : List K) (xs : List (Option A)) (k : K)
      → contains k seen ≡ true
      → contains k (map key (succ_loop max_len len seen xs)) ≡ false
  unfolding succ_loop
  succ_loop_fresh m n seen [] k h = refl
  succ_loop_fresh m n seen (none ∷ xs) k h = ground (arith, succ_loop_fresh m n seen xs k h)
  succ_loop_fresh m n seen (some v ∷ xs) k h = ground (
    arith,
    succ_loop_fresh m n seen xs k h,
    succ_loop_fresh m (suc n) (key v ∷ seen) xs k,
    e.beq_iff k (key v),
  )

  succ_loop-Distinct :
      (max_len len : ℕ) (seen : List K) (xs : List (Option A))
      → Distinct (succ_loop max_len len seen xs)
  unfolding succ_loop
  succ_loop-Distinct m n seen [] = tt
  succ_loop-Distinct m n seen (none ∷ xs) = ground (arith, succ_loop-Distinct m n seen xs)
  succ_loop-Distinct m n seen (some v ∷ xs) = ground (
    arith,
    succ_loop-Distinct m n seen xs,
    succ_loop-Distinct m (suc n) (key v ∷ seen) xs,
    succ_loop_fresh m (suc n) (key v ∷ seen) xs (key v),
    e.beq_iff (key v) (key v),
  )

  length-succ_loop :
      (max_len len : ℕ) (seen : List K) (xs : List (Option A))
      → len ≤ max_len
      → len + length (succ_loop max_len len seen xs) ≤ max_len
  unfolding succ_loop
  length-succ_loop m n seen [] h = omega arith
  length-succ_loop m n seen (none ∷ xs) h = ground (arith, length-succ_loop m n seen xs)
  length-succ_loop m n seen (some v ∷ xs) h =
      ground (arith, length-succ_loop m n seen xs, length-succ_loop m (suc n) (key v ∷ seen) xs)

  succ_loop-Subsequence :
      (max_len len : ℕ) (seen : List K) (xs : List (Option A))
      → Subsequence (succ_loop max_len len seen xs) (somes xs)
  unfolding succ_loop
  succ_loop-Subsequence m n seen [] = done
  succ_loop-Subsequence m n seen (none ∷ xs) =
      if_both (λ out. Subsequence out (somes xs)) (leb m n) (nothing_kept (somes xs))
        (succ_loop-Subsequence m n seen xs)
  succ_loop-Subsequence m n seen (some v ∷ xs) =
      if_both (λ out. Subsequence out (v ∷ somes xs)) (leb m n) (nothing_kept (v ∷ somes xs))
        (if_both (λ out. Subsequence out (v ∷ somes xs)) (contains (key v) seen)
          (skip (succ_loop-Subsequence m n seen xs))
          (keep (succ_loop-Subsequence m (suc n) (key v ∷ seen) xs)))

  -- While there is room left, every key that was offered is there.
  succ_loop_complete :
      (max_len len : ℕ) (seen : List K) (xs : List (Option A)) (k : K)
      → len + length (succ_loop max_len len seen xs) < max_len
      → contains k (map key (somes xs)) ≡ true
      → (contains k seen || contains k (map key (succ_loop max_len len seen xs))) ≡ true
  unfolding succ_loop
  succ_loop_complete m n seen [] k h c = cc
  succ_loop_complete m n seen (none ∷ xs) k h c = ground (arith, succ_loop_complete m n seen xs k)
  succ_loop_complete m n seen (some v ∷ xs) k h c = ground (
    arith,
    succ_loop_complete m n seen xs k,
    succ_loop_complete m (suc n) (key v ∷ seen) xs k,
    e.beq_iff k (key v),
  )

  -- What a successor list promises: it starts with the immediate node, no key stands in it twice,
  -- it is no longer than asked, what follows comes from the offered nodes in their order, and a
  -- list that is not full lacks no key that was offered.
  pub record IsSuccList (immediate : A) (offered : List A) (max_len : ℕ) (out : List A)
      : Type 0 where
    pub rest : List A
    pub starts : out ≡ immediate ∷ rest
    pub distinct : Distinct out
    pub bounded : length out ≤ max_len
    pub ordered : Subsequence rest offered
    pub complete :
        (k : K)
        → (leb max_len (length out)
            || (not (contains k (map key offered)) || contains k (map key out)))
          ≡ true

  pub make_succ_list-IsSuccList :
      (immediate : A) (successors : List (Option A)) (max_len : ℕ)
      → 1 ≤ max_len
      → IsSuccList immediate
          (somes successors)
          max_len
          (make_succ_list immediate successors max_len)
  unfolding make_succ_list
  make_succ_list-IsSuccList v xs m h = record {
    rest = succ_loop m 1 (key v ∷ []) xs;
    starts = refl;
    distinct = ground (
      arith,
      succ_loop_fresh m 1 (key v ∷ []) xs (key v),
      succ_loop-Distinct m 1 (key v ∷ []) xs,
      e.beq_iff (key v) (key v),
    );
    bounded = omega (arith, length-succ_loop m 1 (key v ∷ []) xs h);
    ordered = succ_loop-Subsequence m 1 (key v ∷ []) xs;
    complete = λ k. ground (arith, succ_loop_complete m 1 (key v ∷ []) xs k);
  }

-- MakeSuccListByID
unfoldable pub make_succ_list_by_id : VNode → List (Option VNode) → ℕ → List VNode
unfolding make_succ_list
make_succ_list_by_id = make_succ_list (λ v. v.id)

-- MakeSuccListByAddress
unfoldable pub make_succ_list_by_address : VNode → List (Option VNode) → ℕ → List VNode
unfolding make_succ_list
make_succ_list_by_address = make_succ_list (λ v. v.address)

-- MakeSuccListByID with room for an entry starts with the immediate successor, has no identifier
-- twice, is within its bound, keeps the order of what it was offered, and misses an offered
-- identifier only where it is full.
pub by_id-IsSuccList :
    (v : VNode) (xs : List (Option VNode)) (m : ℕ)
    → 1 ≤ m
    → IsSuccList (λ u. u.id) v (somes xs) m (make_succ_list_by_id v xs m)
unfolding make_succ_list_by_id
by_id-IsSuccList v xs m h = make_succ_list-IsSuccList (λ u. u.id) v xs m h

pub by_address-IsSuccList :
    (v : VNode) (xs : List (Option VNode)) (m : ℕ)
    → 1 ≤ m
    → IsSuccList (λ u. u.address) v (somes xs) m (make_succ_list_by_address v xs m)
unfolding make_succ_list_by_address
by_address-IsSuccList v xs m h = make_succ_list-IsSuccList (λ u. u.address) v xs m h
