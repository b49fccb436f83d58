-- ===== src/Kv/Sqlite/View.antt =====
-- kv/sqlite3: the abstract map that the tables stand for, and how a change of one table shows in it.
use mathlib.Core.Path.{fun_ext}
use specter.Prelude.{
  ℕ, ◌≡◌, refl, ap, sym, subst, ◌∙◌, Bool, false, Option, none, some, inl, inr, List, Bytes,
  bytes_eq, bytes_beq, bytes_beq_iff, ◌=?◌, ltb, Bool-cases,
}
use specter.Prelude.Int.{ℤ}
use specter.Errors.{Error, Result}
use specter.Containers.{find, KeysOnce}
use specter.Kv.Spec.{Cell, Cells, update}
use specter.Kv.Sqlite.Schema.{Tables, Rows, Flags, from_int64, has_row, count}
use specter.Kv.Sqlite.{Driver, any_flag, new_flags, update_key_tracker, Statement, change, ◌>>◌}
use specter.Kv.Sqlite.Bits.{Flags-ext}
use specter.Kv.Sqlite.Transactions.{Ran, ran, refused, broken, exec-Ran, then-Ran}
use specter.Kv.Sqlite.Tracking.{
  is_some, flags_at, settled, SameEntries, row_for, IsTracked, Kept, update_key_tracker-Ran,
}

-- A key without a lease shows the token 0, as Export gives it.
abbrev pub token_of : Option ℤ → ℕ
token_of none = 0
token_of (some t) = from_int64 t

-- What a client can see of each key.
unfoldable pub view : Tables → Cells
view d k = record {
  simple = find k d.simple_entries;
  lease = token_of (find k d.lease_entries);
  has = λ c. has_row k c d.prefix_entries;
}

pub Cell-ext :
    (a b : Cell)
    → a.simple ≡ b.simple
    → a.lease ≡ b.lease
    → ((x : Bytes) → a.has x ≡ b.has x)
    → a ≡ b
Cell-ext a b s l h = λ i. record { simple = s i; lease = l i; has = λ x. h x i }

pub update_at :
    (k : Bytes) (x : Cell) (s t : Cells)
    → t k ≡ x
    → ((j : Bytes) → (k =? j) ≡ false → t j ≡ s j)
    → t ≡ update k x s
update_at k x s t at others = fun_ext λ j. elim (Bool-cases (bytes_beq k j)) [
  | inl e ↦ rw e (subst (λ i. t i ≡ x) ((bytes_beq_iff k j).0 e) at)
  | inr e ↦ rw e (others j e)
]

-- How far a change of the entries of one key reaches.
pub record Changed (key : Bytes) (x : Cell) (d d' : Tables) : Type 0 where
  pub trackers : d'.key_trackers ≡ d.key_trackers
  pub flags : (j : Bytes) → (key =? j) ≡ false → flags_at j d' ≡ flags_at j d
  pub shows : view d' ≡ update key x (view d)

pub simple-Changed :
    (key : Bytes) (o : Option Bytes) (t : List (Bytes × Bytes)) (d : Tables)
    → find key t ≡ o
    → ((j : Bytes) → (key =? j) ≡ false → find j t ≡ find j d.simple_entries)
    → Changed key (record (view d key) { simple = o }) d (record d { simple_entries = t })
unfolding view
simple-Changed key o t d at others = record {
  trackers = refl;
  flags = λ j ne. Flags-ext _ _ (ap is_some (others j ne)) refl refl;
  shows =
      update_at key _ _ _ (Cell-ext _ _ at refl (λ x. refl))
        (λ j ne. Cell-ext _ _ (others j ne) refl (λ x. refl));
}

pub lease-Changed :
    (key : Bytes) (o : Option ℤ) (t : List (Bytes × ℤ)) (d : Tables)
    → find key t ≡ o
    → ((j : Bytes) → (key =? j) ≡ false → find j t ≡ find j d.lease_entries)
    → Changed key (record (view d key) { lease = token_of o }) d (record d { lease_entries = t })
unfolding view
lease-Changed key o t d at others = record {
  trackers = refl;
  flags = λ j ne. Flags-ext _ _ refl refl (ap is_some (others j ne));
  shows =
      update_at key _ _ _ (Cell-ext _ _ refl (ap token_of at) (λ x. refl))
        (λ j ne. Cell-ext _ _ refl (ap token_of (others j ne)) (λ x. refl));
}

pub prefix-Changed :
    (key : Bytes) (h : Bytes → Bool) (t : Rows) (d : Tables)
    → ((x : Bytes) → has_row key x t ≡ h x)
    → ((j x : Bytes) → (key =? j) ≡ false → has_row j x t ≡ has_row j x d.prefix_entries)
    → ((j : Bytes) → (key =? j) ≡ false → count j t ≡ count j d.prefix_entries)
    → Changed key (record (view d key) { has = h }) d (record d { prefix_entries = t })
unfolding view
prefix-Changed key h t d at others counts = record {
  trackers = refl;
  flags = λ j ne. Flags-ext _ _ refl (ap (ltb 0) (counts j ne)) refl;
  shows =
      update_at key _ _ _ (Cell-ext _ _ refl refl at)
        (λ j ne. Cell-ext _ _ refl refl (λ x. others j x ne));
}

module _ ⦃c : Driver⦄ where
  -- The trackers are right, and clients see these cells.
  abbrev pub Shows : Cells → Tables → Unit {0} → Type 0
  Shows s d u = IsTracked d × (view d ≡ s)

  view-SameEntries : (d d' : Tables) → SameEntries d d' → view d' ≡ view d
  unfolding view
  view-SameEntries d d' e = fun_ext λ j.
      Cell-ext _ _ (ap (find j) e.simple) (ap (λ t. token_of (find j t)) e.lease)
        (λ x. ap (has_row j x) e.prefix)

  pub Ran-map :
      {A : Type 0} (May : Error → Type 0) (P Q : Tables → A → Type 0) (r : Result (Tables × A))
      → ((d : Tables) (a : A) → P d a → Q d a)
      → Ran May P r
      → Ran May Q r
  Ran-map May P Q _ f (ran p) = ran (f _ _ p)
  Ran-map May P Q _ f (refused m) = refused m
  Ran-map May P Q _ f (broken s d e) = broken s d e

  -- After a change of one key's entries, its tracker follows.
  pub update_key_tracker-Shows :
      (May : Error → Type 0) (key : Bytes) (x : Cell) (add remove : Flags) (d d' : Tables)
      → IsTracked d
      → Changed key x d d'
      → new_flags (flags_at key d) add (settled remove (count key d'.prefix_entries))
        ≡ flags_at key d'
      → (any_flag (flags_at key d) ≡ false → add ≡ flags_at key d')
      → Ran May (Shows (update key x (view d))) (update_key_tracker key add remove d')
  update_key_tracker-Shows May key x add remove d d' tracked ch merged fresh =
      Ran-map May (Kept d') _ _ (λ e u k. (k.1, view-SameEntries d' e k.0 ∙ ch.shows))
        (update_key_tracker-Ran May key (flags_at key d) add remove d'
          (record {
            once = subst KeysOnce (sym ch.trackers) tracked.once;
            others = λ j ne.
                ap (find j) ch.trackers
                ∙ (tracked.tracked j ∙ ap (row_for j) (sym (ch.flags j ne)));
          })
          (ap (find key) ch.trackers ∙ tracked.tracked key) merged fresh)

  -- A statement that changes the entries of one key, and then its tracker.
  pub change-Shows :
      (May : Error → Type 0) (s : Statement) (run : Tables → Tables) (key : Bytes) (x : Cell)
      (add remove : Flags) (d : Tables)
      → IsTracked d
      → Changed key x d (run d)
      → new_flags (flags_at key d) add (settled remove (count key (run d).prefix_entries))
        ≡ flags_at key (run d)
      → (any_flag (flags_at key d) ≡ false → add ≡ flags_at key (run d))
      → Ran May
          (Shows (update key x (view d)))
          ((change s run >> update_key_tracker key add remove) d)
  change-Shows May s run key x add remove d tracked ch merged fresh =
      then-Ran May (λ y u. y ≡ run d) (Shows (update key x (view d))) _ _
        (exec-Ran May (λ y u. y ≡ run d) s _ d refl)
        (λ y u e.
          subst (λ z. Ran May (Shows (update key x (view d))) (update_key_tracker key add remove z))
            (sym e)
            (update_key_tracker-Shows May key x add remove d (run d) tracked ch merged fresh))
