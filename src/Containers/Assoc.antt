-- ===== src/Containers/Assoc.antt =====
-- Association lists and lists as containers: the newest entry of a key is first.
use specter.Prelude.{
  ◌≡◌, refl, ◌||◌, ◌&&◌, not, none, some, List, [], ◌∷◌, arith, Eq, ◌=?◌, if◌then◌else◌,
}
use specter.Containers.{find, KeysOnce, member, SkipMaps, SkipSets}

module _ {K V : Type 0} ⦃e : Eq K⦄ where
  abbrev pub without : K → List (K × V) → List (K × V)
  without k [] = []
  without k ((j, v) ∷ rest) = if k =? j then without k rest else (j, v) ∷ without k rest

  abbrev pub canonical : List (K × V) → List (K × V)
  canonical [] = []
  canonical ((k, v) ∷ rest) = (k, v) ∷ without k (canonical rest)

  pub find-without :
      (k j : K) (m : List (K × V)) → find j (without k m) ≡ (if k =? j then none else find j m)
  find-without k j [] = ground arith
  find-without k j ((i, v) ∷ m) =
      ground (arith, find-without k j m, e.beq_iff k j, e.beq_iff i j, e.beq_iff k i)

  pub load-store_lem :
      (k j : K) (v : V) (m : List (K × V))
      → find j ((k, v) ∷ without k m) ≡ (if k =? j then some v else find j m)
  load-store_lem k j v m = ground (arith, find-without k j m)

  pub KeysOnce-without : (k : K) (m : List (K × V)) → KeysOnce m → KeysOnce (without k m)
  KeysOnce-without k [] h = tt
  KeysOnce-without k ((i, v) ∷ m) h = ground (arith, KeysOnce-without k m h.1, find-without k i m)

  pub find-canonical : (k : K) (m : List (K × V)) → find k (canonical m) ≡ find k m
  find-canonical k [] = refl
  find-canonical k ((i, v) ∷ m) = ground (arith, find-without i k (canonical m), find-canonical k m)

  pub canonical-KeysOnce : (m : List (K × V)) → KeysOnce (canonical m)
  canonical-KeysOnce [] = tt
  canonical-KeysOnce ((k, v) ∷ m) = ground (
    arith,
    KeysOnce-without k (canonical m) (canonical-KeysOnce m),
    find-without k k (canonical m),
    e.beq_iff k k,
  )

module _ {K : Type 0} ⦃e : Eq K⦄ where
  abbrev pub drop : K → List K → List K
  drop k [] = []
  drop k (j ∷ rest) = if k =? j then drop k rest else j ∷ drop k rest

  pub member-drop : (k j : K) (s : List K) → member j (drop k s) ≡ (not (k =? j) && member j s)
  member-drop k j [] = ground arith
  member-drop k j (i ∷ s) =
      ground (arith, member-drop k j s, e.beq_iff k j, e.beq_iff i j, e.beq_iff k i)

  pub add_lem :
      (k j : K) (s : List K) → member j (if member k s then s else k ∷ s) ≡ ((k =? j) || member j s)
  add_lem k j s = ground (arith, e.beq_iff k j)

abbrev pub assoc_maps : SkipMaps
assoc_maps = record {
  Map = λ K V. List (K × V);
  empty = λ K V. [];
  load = λ k m. find k m;
  store = λ k v m. (k, v) ∷ without k m;
  delete = λ k m. without k m;
  entries = λ m. canonical m;
  load-empty = λ k. refl;
  load-store = λ {K} {V} ⦃e⦄ k j v m. load-store_lem k j v m;
  load-delete = λ k j m. find-without k j m;
  find-entries = λ k m. find-canonical k m;
  entries-KeysOnce = λ m. canonical-KeysOnce m;
}

abbrev pub list_sets : SkipSets
list_sets = record {
  Set = λ K. List K;
  empty = λ K. [];
  contains = λ k s. member k s;
  add = λ k s. if member k s then s else k ∷ s;
  remove = λ k s. drop k s;
  members = λ s. s;
  contains-empty = λ k. refl;
  contains-add = λ k j s. add_lem k j s;
  contains-remove = λ k j s. member-drop k j s;
  member-members = λ k s. refl;
}
