-- ===== src/Kv/Sqlite/Removal.antt =====
-- kv/sqlite3/provider.go: RemoveKeys, batch by batch.
use mathlib.Core.Path.{fun_ext}
use specter.Prelude.{
  ℕ, zero, suc, ◌≤◌, ◌≡◌, refl, ap, sym, subst, ◌∙◌, true, false, ◌||◌, none, inl, inr, List, [],
  ◌∷◌, Bytes, bytes_eq, if◌then◌else◌, length, Bool-cases, arith,
}
use specter.Errors.{Error}
use specter.Containers.{find, member}
use specter.Kv.Spec.{Cells, empty_cell}
use specter.Kv.Sqlite.Schema.{Tables, delete_in, remove_prefixes}
use specter.Kv.Sqlite.PrefixRows.{
  KeysOnce-delete_in, has_row-remove_prefixes, count-remove_prefixes, find-delete_in,
}
use specter.Kv.Sqlite.{
  Driver, Statement, no_flags, delete_simple, delete_prefix, delete_lease, delete_tracker, Tx, ◌>>◌,
  change,
}
use specter.Kv.Sqlite.Provider.{batch_size, batch, after, remove_batch, remove_batches, remove_keys}
use specter.Kv.Sqlite.Transactions.{
  Ran, ran, Outcome, done, exec-Ran, then-Ran, with_write_tx-Outcome,
}
use specter.Kv.Sqlite.Bits.{Flags-ext}
use specter.Kv.Sqlite.Tracking.{flags_at, is_some, row_for, IsTracked}
use specter.Kv.Sqlite.View.{view, token_of, Cell-ext, Shows}
use specter.Kv.Sqlite.Refinement.{Never}

member-batch :
    (n : ℕ) (j : Bytes) (xs : List Bytes)
    → member j xs ≡ (member j (batch n xs) || member j (after n xs))
unfolding batch after
member-batch n j [] = refl
member-batch zero j (x ∷ xs) = refl
member-batch (suc n) j (x ∷ xs) = ground (arith, member-batch n j xs)

length-after_le : (n : ℕ) (xs : List Bytes) → length (after n xs) ≤ length xs
unfolding after
length-after_le n [] = omega arith
length-after_le zero (x ∷ xs) = omega arith
length-after_le (suc n) (x ∷ xs) = omega (arith, length-after_le n xs)

length-after_lt :
    (n m : ℕ) (x : Bytes) (xs : List Bytes)
    → length (x ∷ xs) ≤ suc m
    → length (after (suc n) (x ∷ xs)) ≤ m
unfolding after
length-after_lt n m x xs h = omega (arith, length-after_le n xs)

abbrev pub emptied : List Bytes → Cells → Cells
emptied keys s j = if member j keys then empty_cell else s j

-- The tables without the rows of some keys.
abbrev removed : List Bytes → Tables → Tables
removed ks d = record {
  simple_entries = delete_in ks d.simple_entries;
  prefix_entries = remove_prefixes ks d.prefix_entries;
  lease_entries = delete_in ks d.lease_entries;
  key_trackers = delete_in ks d.key_trackers;
}

module _ {V : Type 0} (ks : List Bytes) (j : Bytes) (rows : List (Bytes × V)) where
  find_gone : member j ks ≡ true → find j (delete_in ks rows) ≡ none
  find_gone e = find-delete_in ks j rows ∙ rw e refl

  find_stays : member j ks ≡ false → find j (delete_in ks rows) ≡ find j rows
  find_stays e = find-delete_in ks j rows ∙ rw e refl

view-removed : (ks : List Bytes) (d : Tables) → view (removed ks d) ≡ emptied ks (view d)
unfolding view
view-removed ks d = fun_ext λ j. elim (Bool-cases (member j ks)) [
  | inl e ↦ rw e (
      Cell-ext _ _ (find_gone ks j d.simple_entries e)
        (ap token_of (find_gone ks j d.lease_entries e))
        (λ x. has_row-remove_prefixes ks j x d.prefix_entries ∙ rw e refl))
  | inr e ↦ rw e (
      Cell-ext _ _ (find_stays ks j d.simple_entries e)
        (ap token_of (find_stays ks j d.lease_entries e))
        (λ x. has_row-remove_prefixes ks j x d.prefix_entries ∙ rw e refl))
]

flags_gone :
    (ks : List Bytes) (j : Bytes) (d : Tables)
    → member j ks ≡ true
    → flags_at j (removed ks d) ≡ no_flags
flags_gone ks j d e =
    Flags-ext _ _ (ap is_some (find_gone ks j d.simple_entries e))
      (rw (count-remove_prefixes ks j d.prefix_entries, e) refl)
      (ap is_some (find_gone ks j d.lease_entries e))

flags_stay :
    (ks : List Bytes) (j : Bytes) (d : Tables)
    → member j ks ≡ false
    → flags_at j (removed ks d) ≡ flags_at j d
flags_stay ks j d e =
    Flags-ext _ _ (ap is_some (find_stays ks j d.simple_entries e))
      (rw (count-remove_prefixes ks j d.prefix_entries, e) refl)
      (ap is_some (find_stays ks j d.lease_entries e))

module _ ⦃c : Driver⦄ where
  removed-IsTracked : (ks : List Bytes) (d : Tables) → IsTracked d → IsTracked (removed ks d)
  removed-IsTracked ks d tracked = record {
    once = KeysOnce-delete_in ks d.key_trackers tracked.once;
    tracked = λ j. elim (Bool-cases (member j ks)) [
      | inl e ↦ find_gone ks j d.key_trackers e ∙ ap (row_for j) (sym (flags_gone ks j d e))
      | inr e ↦
          find_stays ks j d.key_trackers e
          ∙ (tracked.tracked j ∙ ap (row_for j) (sym (flags_stay ks j d e)))
    ];
  }

  -- A statement, and a part of the transaction that goes on from the tables it leaves.
  pub change-then :
      (May : Error → Type 0) {A : Type 0} (Goal : Tables → A → Type 0) (s : Statement)
      (run : Tables → Tables) (rest : Tx A) (d : Tables)
      → Ran May Goal (rest (run d))
      → Ran May Goal ((change s run >> rest) d)
  change-then May Goal s run rest d r =
      then-Ran May (λ y u. y ≡ run d) Goal _ _ (exec-Ran May (λ y u. y ≡ run d) s _ d refl)
        (λ y u e. subst (λ z. Ran May Goal (rest z)) (sym e) r)

  remove_batch-Ran :
      (May : Error → Type 0) (ks : List Bytes) (d : Tables)
      → Ran May (λ d' u. d' ≡ removed ks d) (remove_batch ks d)
  unfolding remove_batch
  remove_batch-Ran May ks d = change-then May _ delete_simple _ _ d (
      change-then May _ delete_prefix _ _ _ (
        change-then May _ delete_lease _ _ _
          (exec-Ran May (λ y u. y ≡ removed ks d) delete_tracker _ _ refl)))

  remove_batches-Ran :
      (n : ℕ) (ks : List Bytes) (d : Tables)
      → length ks ≤ n
      → IsTracked d
      → Ran Never (Shows (emptied ks (view d))) (remove_batches n ks d)
  unfolding remove_batches
  remove_batches-Ran n [] d h tracked = ran (tracked, refl)
  remove_batches-Ran zero (k ∷ ks) d h tracked = ground arith
  remove_batches-Ran (suc n) (k ∷ ks) d h tracked =
      let now = batch batch_size (k ∷ ks) in
      let later = after batch_size (k ∷ ks) in
      let both : emptied later (view (removed now d)) ≡ emptied (k ∷ ks) (view d) =
        ap (emptied later) (view-removed now d)
        ∙ fun_ext λ j. rw (member-batch batch_size j (k ∷ ks)) (ground arith) in
      then-Ran Never (λ y u. y ≡ removed now d) _ _ _ (remove_batch-Ran Never now d)
        (λ y u e.
          subst (λ z. Ran Never (Shows (emptied (k ∷ ks) (view d))) (remove_batches n later z))
            (sym e)
            (subst (λ s. Ran Never (Shows s) (remove_batches n later (removed now d))) both
              (remove_batches-Ran n later (removed now d) (length-after_lt 199 n k ks h)
                (removed-IsTracked now d tracked))))

  -- RemoveKeys
  pub remove_keys-Outcome :
      (keys : List Bytes) (d : Tables)
      → IsTracked d
      → Outcome Never (Shows (emptied keys (view d))) d (remove_keys keys d)
  unfolding remove_keys
  remove_keys-Outcome [] d tracked = done (tracked, refl)
  remove_keys-Outcome (k ∷ ks) d tracked =
      with_write_tx-Outcome Never _ (remove_batches (length (k ∷ ks)) (k ∷ ks)) d
        (remove_batches-Ran (length (k ∷ ks)) (k ∷ ks) d (omega arith) tracked)
