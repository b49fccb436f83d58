-- ===== src/Kv/Sqlite/Schema.antt =====
-- kv/sqlite3/queries.go: what the statements do to the tables. A table with a primary key is the
-- list of its rows; `prefix_entries` has both of its columns as the key.
use specter.Prelude.{
  ℕ, ◌+◌, ◌-◌, ◌^◌, ◌<◌, ◌≡◌, Bool, true, false, ◌&&◌, ◌||◌, Option, none, some, List, [], ◌∷◌,
  Bytes, bytes_eq, bytes_beq_iff, ◌=?◌, ltb, leb, ◌==◌, if◌then◌else◌, length, arith,
}
use specter.Prelude.Int.{ℤ, pos, negsuc}
use specter.Containers.{find, member}
use specter.Containers.Assoc.{without, find-without}

-- bindUint64AsInt64
unfoldable pub to_int64 : ℕ → ℤ
to_int64 w = if ltb w (2 ^ 63) then pos w else negsuc (2 ^ 64 - w - 1)

-- scanInt64AsUint64
unfoldable pub from_int64 : ℤ → ℕ
from_int64 (pos n) = n
from_int64 (negsuc n) = 2 ^ 64 - (n + 1)

pub from_int64-to_int64 : (w : ℕ) → w < 2 ^ 64 → from_int64 (to_int64 w) ≡ w
unfolding from_int64 to_int64
from_int64-to_int64 w h = ground arith

-- `a <= b` and `a = b` on INTEGER columns.
unfoldable pub int_leb : ℤ → ℤ → Bool
int_leb (pos a) (pos b) = leb a b
int_leb (pos a) (negsuc b) = false
int_leb (negsuc a) (pos b) = true
int_leb (negsuc a) (negsuc b) = leb b a

unfoldable pub int_beq : ℤ → ℤ → Bool
int_beq (pos a) (pos b) = a == b
int_beq (pos a) (negsuc b) = false
int_beq (negsuc a) (pos b) = false
int_beq (negsuc a) (negsuc b) = a == b

-- KeyTracker.Flags, by its three bits.
pub record Flags : Type 0 where
  pub simple : Bool
  pub prefix : Bool
  pub lease : Bool

pub record Tracker : Type 0 where
  pub hash : ℤ
  pub flags : Flags

abbrev pub Rows : Type 0
Rows = List (Bytes × Bytes)

-- The four tables.
pub record Tables : Type 0 where
  pub simple_entries : List (Bytes × Bytes)
  pub prefix_entries : Rows
  pub lease_entries : List (Bytes × ℤ)
  pub key_trackers : List (Bytes × Tracker)

module _ {V : Type 0} where
  -- INSERT … ON CONFLICT DO UPDATE, and DELETE, by the primary key.
  abbrev pub upsert : Bytes → V → List (Bytes × V) → List (Bytes × V)
  upsert k v rows = (k, v) ∷ without k rows

  pub find-upsert :
      (k j : Bytes) (v : V) (rows : List (Bytes × V))
      → find j (upsert k v rows) ≡ (if k =? j then some v else find j rows)
  find-upsert k j v rows = ground (arith, find-without k j rows)

  -- UPDATE of the row with this key, if there is one.
  unfoldable pub set_row : Bytes → V → List (Bytes × V) → List (Bytes × V)
  set_row k v [] = []
  set_row k v ((j, w) ∷ rest) =
      if k =? j then (j, v) ∷ set_row k v rest else (j, w) ∷ set_row k v rest

  abbrev pub replaced : V → Option V → Option V
  replaced v none = none
  replaced v (some w) = some v

  pub find-set_row :
      (k j : Bytes) (v : V) (rows : List (Bytes × V))
      → find j (set_row k v rows) ≡ (if k =? j then replaced v (find j rows) else find j rows)
  unfolding set_row
  find-set_row k j v [] = ground arith
  find-set_row k j v ((i, w) ∷ rest) =
      ground
        (arith, find-set_row k j v rest, bytes_beq_iff k j, bytes_beq_iff i j, bytes_beq_iff k i)

-- queryPrefixContains
unfoldable pub has_row : Bytes → Bytes → Rows → Bool
has_row p c [] = false
has_row p c ((q, x) ∷ rest) = (q =? p && x =? c) || has_row p c rest

-- queryPrefixList
unfoldable pub children : Bytes → Rows → List Bytes
children p [] = []
children p ((q, x) ∷ rest) = if q =? p then x ∷ children p rest else children p rest

-- queryPrefixCount
unfoldable pub count : Bytes → Rows → ℕ
unfolding children
count p rows = length (children p rows)

-- queryPrefixRemove
unfoldable pub remove_row : Bytes → Bytes → Rows → Rows
remove_row p c [] = []
remove_row p c ((q, x) ∷ rest) =
    if p =? q && c =? x then remove_row p c rest else (q, x) ∷ remove_row p c rest

-- DELETE FROM prefix_entries WHERE prefix IN (…)
unfoldable pub remove_prefixes : List Bytes → Rows → Rows
remove_prefixes ks [] = []
remove_prefixes ks ((q, x) ∷ rest) =
    if member q ks then remove_prefixes ks rest else (q, x) ∷ remove_prefixes ks rest

-- DELETE FROM … WHERE key IN (…)
unfoldable pub delete_in : {V : Type 0} → List Bytes → List (Bytes × V) → List (Bytes × V)
delete_in ks [] = []
delete_in ks ((q, x) ∷ rest) = if member q ks then delete_in ks rest else (q, x) ∷ delete_in ks rest
