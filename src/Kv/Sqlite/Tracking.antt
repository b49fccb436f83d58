-- ===== src/Kv/Sqlite/Tracking.antt =====
-- kv/sqlite3/key_tracker.go: the tracker of a key against the three tables that it summarises.
use specter.Prelude.{
  ℕ, ◌≡◌, refl, ap, sym, subst, ◌∙◌, Bool, true, false, Option, none, some, inl, inr, List, ◌∷◌,
  Bytes, bytes_eq, bytes_beq, bytes_beq_iff, ◌=?◌, ltb, ==_iff, if◌then◌else◌, Bool-cases,
}
use specter.Errors.{Error}
use specter.Containers.{find, KeysOnce}
use specter.Containers.Assoc.{without, find-without, KeysOnce-without}
use specter.Kv.Sqlite.PrefixRows.{KeysOnce-set_row}
use specter.Kv.Sqlite.Schema.{
  Tables, Tracker, Flags, to_int64, from_int64-to_int64, set_row, find-set_row, count,
}
use specter.Kv.Sqlite.{
  Driver, Statement, tracker_lookup, tracker_insert, tracker_update, tracker_delete, prefix_count,
  any_flag, new_flags, change, cancel, remaining_if, remaining, store_flags, tracker_from,
  update_key_tracker,
}
use specter.Kv.Sqlite.Transactions.{Ran, ran, exec-Ran, then-Ran}

abbrev pub is_some : {V : Type 0} → Option V → Bool
is_some none = false
is_some (some v) = true

-- What the tables hold under a key.
abbrev pub flags_at : Bytes → Tables → Flags
flags_at j d = record {
  simple = is_some (find j d.simple_entries);
  prefix = ltb 0 (count j d.prefix_entries);
  lease = is_some (find j d.lease_entries);
}

-- The tables of entries are the same.
pub record SameEntries (d d' : Tables) : Type 0 where
  pub simple : d'.simple_entries ≡ d.simple_entries
  pub prefix : d'.prefix_entries ≡ d.prefix_entries
  pub lease : d'.lease_entries ≡ d.lease_entries

-- The flags to remove, when no children may remain.
abbrev pub settled_if : Bool → Flags → ℕ → Flags
settled_if true remove n = cancel remove n
settled_if false remove n = remove

abbrev pub settled : Flags → ℕ → Flags
settled remove n = settled_if remove.prefix remove n

find_here :
    {V : Type 0} (key : Bytes) (v : V) (rest : List (Bytes × V))
    → find key ((key, v) ∷ rest) ≡ some v
find_here key v rest = rw ((bytes_beq_iff key key).1 refl) refl

find_past :
    {V : Type 0} (key j : Bytes) (v : V) (rest : List (Bytes × V))
    → (key =? j) ≡ false
    → find j ((key, v) ∷ rest) ≡ find j rest
find_past key j v rest ne = rw ne refl

module _ ⦃c : Driver⦄ where
  abbrev pub row_for : Bytes → Flags → Option Tracker
  row_for key f =
      if any_flag f then some (record { hash = to_int64 (c.hash_fn key); flags = f }) else none

  row_for-some :
      (key : Bytes) (f : Flags)
      → any_flag f ≡ true
      → row_for key f ≡ some (record { hash = to_int64 (c.hash_fn key); flags = f })
  row_for-some key f a = rw a refl

  row_for-none : (key : Bytes) (f : Flags) → any_flag f ≡ false → row_for key f ≡ none
  row_for-none key f a = rw a refl

  -- Each key has the tracker that its entries call for, and none if it has no entries; the trackers
  -- have each key once.
  pub record IsTracked (d : Tables) : Type 0 where
    pub once : KeysOnce d.key_trackers
    pub tracked : (j : Bytes) → find j d.key_trackers ≡ row_for j (flags_at j d)

  -- The trackers of the keys but one.
  pub record TrackedBut (key : Bytes) (d : Tables) : Type 0 where
    pub once : KeysOnce d.key_trackers
    pub others : (j : Bytes) → (key =? j) ≡ false → find j d.key_trackers ≡ row_for j (flags_at j d)

  IsTracked-at :
      (key : Bytes) (d : Tables)
      → TrackedBut key d
      → find key d.key_trackers ≡ row_for key (flags_at key d)
      → IsTracked d
  IsTracked-at key d but at_key = record { once = but.once; tracked = λ j. at j }
    where
      at : (j : Bytes) → find j d.key_trackers ≡ row_for j (flags_at j d)
      at j = elim (Bool-cases (bytes_beq key j)) [
        | inl e ↦
            subst (λ i. find i d.key_trackers ≡ row_for i (flags_at i d))
              ((bytes_beq_iff key j).0 e) at_key
        | inr e ↦ but.others j e
      ]

  abbrev pub Kept : Tables → Tables → Unit {0} → Type 0
  Kept d d' u = SameEntries d d' × IsTracked d'

  SameEntries-trackers :
      (d : Tables) (t : List (Bytes × Tracker)) → SameEntries d (record d { key_trackers = t })
  SameEntries-trackers d t = record { simple = refl; prefix = refl; lease = refl }

  -- A statement on the trackers that gives the key its row, and leaves the others theirs.
  change-Kept :
      (May : Error → Type 0) (s : Statement) (key : Bytes) (d : Tables)
      (t : List (Bytes × Tracker) → List (Bytes × Tracker))
      → TrackedBut key d
      → ((j : Bytes) → (key =? j) ≡ false → find j (t d.key_trackers) ≡ find j d.key_trackers)
      → find key (t d.key_trackers) ≡ row_for key (flags_at key d)
      → KeysOnce (t d.key_trackers)
      → Ran May (Kept d) (change s (λ d. record d { key_trackers = t d.key_trackers }) d)
  change-Kept May s key d t but same at_key once = exec-Ran May (Kept d) s _ d (
    SameEntries-trackers d (t d.key_trackers),
    IsTracked-at key (record d { key_trackers = t d.key_trackers })
        (record { once = once; others = λ j ne. same j ne ∙ but.others j ne }) at_key,
  )

  no_tracker-Ran :
      (May : Error → Type 0) (key : Bytes) (add remove : Flags) (d : Tables)
      → TrackedBut key d
      → find key d.key_trackers ≡ none
      → add ≡ flags_at key d
      → Ran May (Kept d) (tracker_from key add remove none d)
  unfolding tracker_from
  no_tracker-Ran May key add remove d but missing e = elim (Bool-cases (any_flag add)) [
    | inl a ↦ rw a (
        change-Kept May tracker_insert key d
          (λ t. (key, record { hash = to_int64 (c.hash_fn key); flags = add }) ∷ t) but
          (λ j ne. find_past key j _ _ ne)
          (find_here key _ _ ∙ (sym (row_for-some key add a) ∙ ap (row_for key) e))
          (missing, but.once))
    | inr a ↦ rw a (
        ran (
          record { simple = refl; prefix = refl; lease = refl },
          IsTracked-at key d but (missing ∙ (sym (row_for-none key add a) ∙ ap (row_for key) e)),
        ))
  ]

  store_flags-Ran :
      (May : Error → Type 0) (key : Bytes) (f0 flags : Flags) (d : Tables)
      → TrackedBut key d
      → find key d.key_trackers ≡ some (record { hash = to_int64 (c.hash_fn key); flags = f0 })
      → flags ≡ flags_at key d
      → Ran May
          (Kept d)
          (store_flags key (record { hash = to_int64 (c.hash_fn key); flags = f0 }) flags d)
  unfolding store_flags
  store_flags-Ran May key f0 flags d but there e = elim (Bool-cases (any_flag flags)) [
    | inl a ↦ rw a (
        change-Kept May tracker_update key d
          (set_row key (record { hash = to_int64 (c.hash_fn key); flags = flags })) but
          (λ j ne. find-set_row key j _ d.key_trackers ∙ rw ne refl)
          (find-set_row key key _ d.key_trackers
            ∙ (rw ((bytes_beq_iff key key).1 refl, there) (sym (row_for-some key flags a))
                ∙ ap (row_for key) e))
          (KeysOnce-set_row key _ d.key_trackers but.once))
    | inr a ↦ rw a (
        change-Kept May tracker_delete key d (without key) but
          (λ j ne. find-without key j d.key_trackers ∙ rw ne refl)
          (find-without key key d.key_trackers
            ∙ (rw ((bytes_beq_iff key key).1 refl) (sym (row_for-none key flags a))
                ∙ ap (row_for key) e))
          (KeysOnce-without key d.key_trackers but.once))
  ]

  remaining_if-Ran :
      (May : Error → Type 0) (p : Bool) (key : Bytes) (remove : Flags) (d : Tables)
      → Ran May
          (λ d' r. (d' ≡ d) × (r ≡ settled_if p remove (count key d.prefix_entries)))
          (remaining_if p key remove d)
  unfolding remaining_if
  remaining_if-Ran May true key remove d =
      then-Ran May (λ d' n. (d' ≡ d) × (n ≡ count key d.prefix_entries)) _ _ _
        (exec-Ran May _ prefix_count _ d (refl, refl)) (λ d' n e. ran (e.0, ap (cancel remove) e.1))
  remaining_if-Ran May false key remove d = ran (refl, refl)

  tracker-Ran :
      (May : Error → Type 0) (key : Bytes) (f0 add remove : Flags) (d : Tables)
      → TrackedBut key d
      → find key d.key_trackers ≡ some (record { hash = to_int64 (c.hash_fn key); flags = f0 })
      → new_flags f0 add (settled remove (count key d.prefix_entries)) ≡ flags_at key d
      → Ran May (Kept d) (
          tracker_from key add remove
            (some (record { hash = to_int64 (c.hash_fn key); flags = f0 }))
            d)
  unfolding tracker_from
  tracker-Ran May key f0 add remove d but there e =
      rw ((==_iff _ _).1 (from_int64-to_int64 (c.hash_fn key) (c.hash_word key))) (
        then-Ran May (λ d' r. (d' ≡ d) × (r ≡ settled remove (count key d.prefix_entries))) (Kept d)
          _ _ (unfold remaining in remaining_if-Ran May remove.prefix key remove d)
          (λ d' r q.
            subst
              (λ x. Ran May (Kept d) (
                store_flags key (record { hash = to_int64 (c.hash_fn key); flags = f0 })
                  (new_flags f0 add r) x))
              (sym q.0)
              (store_flags-Ran May key f0 (new_flags f0 add r) d but there
                (ap (new_flags f0 add) q.1 ∙ e))))

  -- Once the entries of a key have changed, its tracker is brought to what they are.
  pub update_key_tracker-Ran :
      (May : Error → Type 0) (key : Bytes) (f0 add remove : Flags) (d : Tables)
      → TrackedBut key d
      → find key d.key_trackers ≡ row_for key f0
      → new_flags f0 add (settled remove (count key d.prefix_entries)) ≡ flags_at key d
      → (any_flag f0 ≡ false → add ≡ flags_at key d)
      → Ran May (Kept d) (update_key_tracker key add remove d)
  unfolding update_key_tracker
  update_key_tracker-Ran May key f0 add remove d but before merged fresh =
      then-Ran May (λ d' t. (d' ≡ d) × (t ≡ find key d.key_trackers)) (Kept d) _ _
        (exec-Ran May _ tracker_lookup _ d (refl, refl))
        (λ d' t q.
          subst (λ x. Ran May (Kept d) (tracker_from key add remove x d')) (sym q.1)
            (subst (λ x. Ran May (Kept d) (tracker_from key add remove (find key d.key_trackers) x))
              (sym q.0) by_flags))
    where
      by_flags : Ran May (Kept d) (tracker_from key add remove (find key d.key_trackers) d)
      by_flags = elim (Bool-cases (any_flag f0)) [
        | inl a ↦
            let there = before ∙ row_for-some key f0 a in
            subst (λ x. Ran May (Kept d) (tracker_from key add remove x d)) (sym there)
              (tracker-Ran May key f0 add remove d but there merged)
        | inr a ↦
            let missing = before ∙ row_for-none key f0 a in
            subst (λ x. Ran May (Kept d) (tracker_from key add remove x d)) (sym missing)
              (no_tracker-Ran May key add remove d but missing (fresh a))
      ]
