-- ===== src/Kv/Sqlite/PrefixRows.antt =====
-- kv/sqlite3/queries.go: the statements on `prefix_entries`, row by row.
use specter.Prelude.{
  ◌<◌, ◌≡◌, refl, true, false, not, ◌&&◌, ◌||◌, none, List, [], ◌∷◌, Bytes, bytes_eq, bytes_beq_iff,
  ◌=?◌, ltb, if◌then◌else◌, arith,
}
use specter.Containers.{find, member, KeysOnce}
use specter.Kv.Sqlite.Schema.{
  set_row, find-set_row, Rows, has_row, children, count, remove_row, remove_prefixes, delete_in,
}

pub has_row-remove_row :
    (p c q x : Bytes) (rows : Rows)
    → has_row q x (remove_row p c rows) ≡ (not (p =? q && c =? x) && has_row q x rows)
unfolding has_row remove_row
has_row-remove_row p c q x [] = ground arith
has_row-remove_row p c q x ((r, y) ∷ rest) = ground (
  arith,
  has_row-remove_row p c q x rest,
  bytes_beq_iff p q,
  bytes_beq_iff c x,
  bytes_beq_iff p r,
  bytes_beq_iff c y,
  bytes_beq_iff r q,
  bytes_beq_iff y x,
)

-- To remove a row leaves the other prefixes their children, and adds none.
pub count-remove_row :
    (p c q : Bytes) (rows : Rows) → (p =? q) ≡ false → count q (remove_row p c rows) ≡ count q rows
unfolding count children remove_row
count-remove_row p c q [] h = refl
count-remove_row p c q ((r, y) ∷ rest) h =
    ground (
      arith,
      count-remove_row p c q rest h,
      bytes_beq_iff p q,
      bytes_beq_iff p r,
      bytes_beq_iff r q,
    )

pub count-remove_row_pos :
    (p c q : Bytes) (rows : Rows) → 0 < count q (remove_row p c rows) → 0 < count q rows
unfolding count children remove_row
count-remove_row_pos p c q [] h = h
count-remove_row_pos p c q ((r, y) ∷ rest) h = ground (arith, count-remove_row_pos p c q rest)

pub member-children : (p c : Bytes) (rows : Rows) → member c (children p rows) ≡ has_row p c rows
unfolding children has_row
member-children p c [] = refl
member-children p c ((q, x) ∷ rest) = ground (arith, member-children p c rest)

pub has_row-remove_prefixes :
    (ks : List Bytes) (q x : Bytes) (rows : Rows)
    → has_row q x (remove_prefixes ks rows) ≡ (not (member q ks) && has_row q x rows)
unfolding has_row remove_prefixes
has_row-remove_prefixes ks q x [] = ground arith
has_row-remove_prefixes ks q x ((r, y) ∷ rest) =
    ground (arith, has_row-remove_prefixes ks q x rest, bytes_beq_iff r q)

pub count-remove_prefixes :
    (ks : List Bytes) (q : Bytes) (rows : Rows)
    → count q (remove_prefixes ks rows) ≡ (if member q ks then 0 else count q rows)
unfolding count children remove_prefixes
count-remove_prefixes ks q [] = ground arith
count-remove_prefixes ks q ((r, y) ∷ rest) =
    ground (arith, count-remove_prefixes ks q rest, bytes_beq_iff r q)

pub find-delete_in :
    {V : Type 0} (ks : List Bytes) (j : Bytes) (rows : List (Bytes × V))
    → find j (delete_in ks rows) ≡ (if member j ks then none else find j rows)
unfolding delete_in
find-delete_in ks j [] = ground arith
find-delete_in ks j ((i, v) ∷ rest) = ground (arith, find-delete_in ks j rest, bytes_beq_iff i j)

pub has_row-cons_self :
    (p c x : Bytes) (rows : Rows) → has_row p x ((p, c) ∷ rows) ≡ ((c =? x) || has_row p x rows)
unfolding has_row
has_row-cons_self p c x rows = rw ((bytes_beq_iff p p).1 refl) refl

pub has_row-cons_other :
    (p c q x : Bytes) (rows : Rows)
    → (p =? q) ≡ false
    → has_row q x ((p, c) ∷ rows) ≡ has_row q x rows
unfolding has_row
has_row-cons_other p c q x rows ne = rw ne refl

pub count-cons_self : (p c : Bytes) (rows : Rows) → ltb 0 (count p ((p, c) ∷ rows)) ≡ true
unfolding count children
count-cons_self p c rows = rw ((bytes_beq_iff p p).1 refl) (ground arith)

pub count-cons_other :
    (p c q : Bytes) (rows : Rows) → (p =? q) ≡ false → count q ((p, c) ∷ rows) ≡ count q rows
unfolding count children
count-cons_other p c q rows ne = rw ne refl

pub KeysOnce-delete_in :
    {V : Type 0} (ks : List Bytes) (rows : List (Bytes × V))
    → KeysOnce rows
    → KeysOnce (delete_in ks rows)
unfolding delete_in
KeysOnce-delete_in ks [] h = tt
KeysOnce-delete_in ks ((i, v) ∷ rest) h =
    ground (arith, KeysOnce-delete_in ks rest h.1, find-delete_in ks i rest)

pub KeysOnce-set_row :
    {V : Type 0} (k : Bytes) (v : V) (rows : List (Bytes × V))
    → KeysOnce rows
    → KeysOnce (set_row k v rows)
unfolding set_row
KeysOnce-set_row k v [] h = tt
KeysOnce-set_row k v ((i, w) ∷ rest) h =
    ground (arith, KeysOnce-set_row k v rest h.1, find-set_row k i v rest)
