-- ===== src/Kv/Sqlite/Ranges.antt =====
-- kv/sqlite3/provider.go: RangeKeys and ListKeys read the trackers, and so what the tables hold.
use specter.Prelude.{
  ℕ, ◌<◌, ◌≡◌, refl, ap, ◌∙◌, inl, inr, Bool, true, false, ◌&&◌, ◌||◌, Option, none, some, List, [],
  ◌∷◌, ◌++◌, Bytes, bytes_eq, bytes_beq_iff, ◌=?◌, ltb, Bool-cases, arith,
}
use specter.Prelude.Int.{ℤ, pos}
use specter.Errors.{Error, Result, ok, err}
use specter.Ring.{max_identifier, between}
use specter.Containers.{find, KeysOnce, member}
use specter.Kv.Memory.Keys.{has_prefix, KeyKind, KeyComposite, simple_key, prefix_key, lease_key}
use specter.Kv.Sqlite.Schema.{Tables, Tracker, Flags, to_int64, int_leb, int_beq}
use specter.Kv.Sqlite.{Driver, Statement, any_flag, answered, exec}
use specter.Kv.Sqlite.Provider.{
  row_kinds, list_rows, in_range, insert_row, select_rows, keys_of, result_of, list_keys_of,
  range_keys,
}
use specter.Kv.Sqlite.Tracking.{flags_at, row_for, IsTracked}

to_int64_small : (w : ℕ) → w < max_identifier → to_int64 w ≡ pos w
unfolding to_int64
to_int64_small w h = ground arith

-- The condition of the statement is that of the ring.
in_range-between :
    (low high h : ℕ)
    → low < max_identifier
    → high < max_identifier
    → h < max_identifier
    → in_range (ltb low high) (to_int64 low) (to_int64 high) (to_int64 h) ≡ between low h high true
unfolding in_range between int_leb int_beq
in_range-between low high h a b c =
    rw (to_int64_small low a, to_int64_small high b, to_int64_small h c) (ground arith)

member-insert_row :
    (k j : Bytes) (h : ℤ) (rows : List (Bytes × ℤ))
    → member k (keys_of (insert_row j h rows)) ≡ ((j =? k) || member k (keys_of rows))
unfolding insert_row
member-insert_row k j h [] = ground arith
member-insert_row k j h ((i, g) ∷ rows) = ground (arith, member-insert_row k j h rows)

abbrev selected : Bool → ℤ → ℤ → Option Tracker → Bool
selected norm low high none = false
selected norm low high (some t) = in_range norm low high t.hash

member-select_rows :
    (norm : Bool) (low high : ℤ) (k : Bytes) (rows : List (Bytes × Tracker))
    → KeysOnce rows
    → member k (keys_of (select_rows norm low high rows)) ≡ selected norm low high (find k rows)
unfolding select_rows
member-select_rows norm low high k [] once = refl
member-select_rows norm low high k ((j, t) ∷ rows) once = ground (
  arith,
  member-select_rows norm low high k rows once.1,
  member-insert_row k j t.hash (select_rows norm low high rows),
  once.0,
  bytes_beq_iff j k,
  ap (λ x. find x rows) {x = j} {y = k},
)

abbrev pub same_kind : KeyKind → KeyKind → Bool
same_kind simple_key simple_key = true
same_kind prefix_key prefix_key = true
same_kind lease_key lease_key = true
same_kind _ _ = false

abbrev pub flag_of : KeyKind → Flags → Bool
flag_of simple_key f = f.simple
flag_of prefix_key f = f.prefix
flag_of lease_key f = f.lease

abbrev pub listed : KeyKind → Bytes → List KeyComposite → Bool
listed kind k [] = false
listed kind k (x ∷ rest) = (same_kind x.kind kind && (x.key =? k)) || listed kind k rest

listed-append :
    (kind : KeyKind) (k : Bytes) (xs ys : List KeyComposite)
    → listed kind k (xs ++ ys) ≡ (listed kind k xs || listed kind k ys)
listed-append kind k [] ys = refl
listed-append kind k (x ∷ xs) ys = ground (arith, listed-append kind k xs ys)

listed-row_kinds :
    (kind : KeyKind) (k j : Bytes) (f : Flags)
    → listed kind k (row_kinds j f) ≡ ((j =? k) && flag_of kind f)
unfolding row_kinds
listed-row_kinds simple_key k j f = ground arith
listed-row_kinds prefix_key k j f = ground arith
listed-row_kinds lease_key k j f = ground arith

abbrev flag_in : KeyKind → Option Tracker → Bool
flag_in kind none = false
flag_in kind (some t) = flag_of kind t.flags

listed-list_rows :
    (kind : KeyKind) (k prefix : Bytes) (rows : List (Bytes × Tracker))
    → KeysOnce rows
    → listed kind k (list_rows prefix rows) ≡ (has_prefix k prefix && flag_in kind (find k rows))
unfolding list_rows
listed-list_rows kind k prefix [] once = ground arith
listed-list_rows kind k prefix ((j, t) ∷ rows) once = ground (
  arith,
  listed-list_rows kind k prefix rows once.1,
  listed-append kind k (row_kinds j t.flags) (list_rows prefix rows),
  listed-row_kinds kind k j t.flags,
  once.0,
  bytes_beq_iff j k,
  ap (λ x. find x rows) {x = j} {y = k},
  ap (λ x. has_prefix x prefix) {x = j} {y = k},
)

module _ ⦃c : Driver⦄ where
  selected-row_for :
      (low high : ℕ) (k : Bytes) (f : Flags)
      → low < max_identifier
      → high < max_identifier
      → c.hash_fn k < max_identifier
      → selected (ltb low high) (to_int64 low) (to_int64 high) (row_for k f)
        ≡ (between low (c.hash_fn k) high true && any_flag f)
  selected-row_for low high k f a b h = elim (Bool-cases (any_flag f)) [
    | inl e ↦ rw e (in_range-between low high (c.hash_fn k) a b h ∙ ground arith)
    | inr e ↦ rw e (ground arith)
  ]

  flag_in-row_for :
      (kind : KeyKind) (k : Bytes) (f : Flags) → flag_in kind (row_for k f) ≡ flag_of kind f
  flag_in-row_for simple_key k f = ground arith
  flag_in-row_for prefix_key k f = ground arith
  flag_in-row_for lease_key k f = ground arith

  -- A listing is the list that was read, or the error of the statement.
  pub data Answered {A : Type 0} (Right : A → Type 0) (d : Tables) : Result A → Type 0 where
    listing : {a : A} → Right a → Answered Right d (ok a)
    no_listing : {e : Error} (s : Statement) → c.fails s d ≡ some e → Answered Right d (err e)

  answered_by :
      {A : Type 0} (Right : A → Type 0) (s : Statement) (d : Tables) (a : A) (o : Option Error)
      → c.fails s d ≡ o
      → Right a
      → Answered Right d (result_of (answered o (d, a)))
  unfolding result_of answered
  answered_by Right s d a none e r = listing r
  answered_by Right s d a (some x) e r = no_listing s e

  -- Where every key has the tracker that its rows call for, once, and bounds and hashes lie on
  -- the circle: unless the statement fails, RangeKeys lists a key exactly if its hash lies in
  -- (low, high] of the circle and it has a row, and ListKeys lists a key with a kind exactly if
  -- it has the prefix and a row of that kind.
  pub listings-Answered :
      (low high : ℕ) (prefix : Bytes) (d : Tables)
      → IsTracked d
      → low < max_identifier
      → high < max_identifier
      → ((k : Bytes) → c.hash_fn k < max_identifier)
      → Answered
          (λ keys.
            (k : Bytes)
            → member k keys ≡ (between low (c.hash_fn k) high true && any_flag (flags_at k d)))
          d
          (range_keys low high d)
        × Answered
            (λ xs.
              (kind : KeyKind) (k : Bytes)
              → listed kind k xs ≡ (has_prefix k prefix && flag_of kind (flags_at k d)))
            d
            (list_keys_of prefix d)
  unfolding range_keys list_keys_of exec
  listings-Answered low high prefix d tracked a b hashes = (
    answered_by _ _ d _ _ refl (λ k.
        member-select_rows (ltb low high) (to_int64 low) (to_int64 high) k d.key_trackers
          tracked.once
        ∙ (ap (selected (ltb low high) (to_int64 low) (to_int64 high)) (tracked.tracked k)
            ∙ selected-row_for low high k (flags_at k d) a b (hashes k))),
    answered_by _ _ d _ _ refl (λ kind k.
        listed-list_rows kind k prefix d.key_trackers tracked.once
        ∙ ap (λ x. has_prefix k prefix && x)
            (ap (flag_in kind) (tracked.tracked k) ∙ flag_in-row_for kind k (flags_at k d))),
  )
