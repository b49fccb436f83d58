-- ===== src/Containers.antt =====
-- The concurrent containers of the third-party packages `skipmap` and `skipset`, behind what their
-- documentation promises. A map holds pointers in the Go program: a change through such a pointer
-- is a `store` here.
pub mod Assoc
use specter.Prelude.{
  ◌≡◌, Bool, true, false, ◌||◌, ◌&&◌, not, Option, none, some, List, [], ◌∷◌, Eq, ◌=?◌,
  if◌then◌else◌,
}

-- The value at the first entry with this key.
abbrev pub find : {K V : Type 0} ⦃e : Eq K⦄ → K → List (K × V) → Option V
find k [] = none
find k ((j, v) ∷ rest) = if j =? k then some v else find k rest

-- The entries have each key once.
abbrev pub KeysOnce : {K V : Type 0} ⦃e : Eq K⦄ → List (K × V) → Type 0
KeysOnce [] = Unit
KeysOnce ((k, v) ∷ rest) = (find k rest ≡ none) × KeysOnce rest

abbrev pub member : {K : Type 0} ⦃e : Eq K⦄ → K → List K → Bool
member k [] = false
member k (j ∷ rest) = (j =? k) || member k rest

pub record SkipMaps : Type 1 where
  pub Map : (K V : Type 0) → Type 0
  pub empty : (K V : Type 0) → Map K V
  -- Load
  pub load : {K V : Type 0} ⦃e : Eq K⦄ → K → Map K V → Option V
  -- Store
  pub store : {K V : Type 0} ⦃e : Eq K⦄ → K → V → Map K V → Map K V
  -- Delete
  pub delete : {K V : Type 0} ⦃e : Eq K⦄ → K → Map K V → Map K V
  -- What Range visits, in its order.
  pub entries : {K V : Type 0} ⦃e : Eq K⦄ → Map K V → List (K × V)
  pub load-empty : {K V : Type 0} ⦃e : Eq K⦄ (k : K) → load k (empty K V) ≡ none
  pub load-store :
      {K V : Type 0} ⦃e : Eq K⦄ (k j : K) (v : V) (m : Map K V)
      → load j (store k v m) ≡ (if k =? j then some v else load j m)
  pub load-delete :
      {K V : Type 0} ⦃e : Eq K⦄ (k j : K) (m : Map K V)
      → load j (delete k m) ≡ (if k =? j then none else load j m)
  pub find-entries : {K V : Type 0} ⦃e : Eq K⦄ (k : K) (m : Map K V) → find k (entries m) ≡ load k m
  pub entries-KeysOnce : {K V : Type 0} ⦃e : Eq K⦄ (m : Map K V) → KeysOnce (entries m)

pub record SkipSets : Type 1 where
  pub Set : (K : Type 0) → Type 0
  pub empty : (K : Type 0) → Set K
  -- Contains
  pub contains : {K : Type 0} ⦃e : Eq K⦄ → K → Set K → Bool
  -- The set after Add, which reports whether the value was absent.
  pub add : {K : Type 0} ⦃e : Eq K⦄ → K → Set K → Set K
  -- Remove
  pub remove : {K : Type 0} ⦃e : Eq K⦄ → K → Set K → Set K
  -- What Range visits, in its order; Len is its length.
  pub members : {K : Type 0} ⦃e : Eq K⦄ → Set K → List K
  pub contains-empty : {K : Type 0} ⦃e : Eq K⦄ (k : K) → contains k (empty K) ≡ false
  pub contains-add :
      {K : Type 0} ⦃e : Eq K⦄ (k j : K) (s : Set K)
      → contains j (add k s) ≡ ((k =? j) || contains j s)
  pub contains-remove :
      {K : Type 0} ⦃e : Eq K⦄ (k j : K) (s : Set K)
      → contains j (remove k s) ≡ (not (k =? j) && contains j s)
  pub member-members :
      {K : Type 0} ⦃e : Eq K⦄ (k : K) (s : Set K) → member k (members s) ≡ contains k s
