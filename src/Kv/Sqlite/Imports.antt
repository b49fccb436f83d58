-- ===== src/Kv/Sqlite/Imports.antt =====
-- kv/sqlite3/provider.go: what Import does to one key.
use specter.Prelude.{
  ℕ, zero, suc, ◌^◌, ◌<◌, ◌≡◌, refl, ap, subst, ◌∙◌, Bool, true, ◌||◌, not, Option, none, some, inl,
  inr, List, [], ◌∷◌, Bytes, bytes_eq, bytes_beq_iff, ◌=?◌, ltb, ◌==◌, length, Bool-cases, arith,
}
use specter.Errors.{Error}
use specter.Containers.{member}
use specter.Kv.Spec.{Cell, Transfer}
use specter.Kv.Sqlite.Schema.{
  Tables, Flags, Rows, children, to_int64, from_int64-to_int64, upsert, has_row, count,
}
use specter.Kv.Sqlite.PrefixRows.{
  has_row-cons_self, has_row-cons_other, count-cons_self, count-cons_other,
}
use specter.Kv.Sqlite.{Driver, simple_put, prefix_append, lease_import, append_row}
use specter.Kv.Sqlite.Provider.{
  imported_simple_value, has_value, import_simple, import_children, import_lease,
}
use specter.Kv.Sqlite.Bits.{Flags-ext}
use specter.Kv.Sqlite.Transactions.{Ran, ran, exec-Ran}
use specter.Kv.Sqlite.Tracking.{flags_at, is_some}
use specter.Kv.Sqlite.View.{
  view, Cell-ext, update_at, Changed, simple-Changed, lease-Changed, prefix-Changed,
}
use specter.Kv.Sqlite.Refinement.{find-upsert_self, find-upsert_other}
use specter.Kv.Sqlite.Removal.{change-then}

abbrev pub or_else : Option Bytes → Option Bytes → Option Bytes
or_else none o = o
or_else (some v) o = some v

abbrev pub new_lease : ℕ → ℕ → ℕ
new_lease zero held = held
new_lease (suc n) held = suc n

-- The cell of a key after it was imported.
abbrev pub merged : Transfer → Cell → Cell
merged t c = record {
  simple = or_else (imported_simple_value t) c.simple;
  lease = new_lease t.lease_token c.lease;
  has = λ x. member x t.prefix_children || c.has x;
}

or_swap : (a b c : Bool) → (b || (a || c)) ≡ ((a || b) || c)
or_swap a b c = ground arith

has_already :
    (p x z : Bytes) (rows : Rows)
    → has_row p x rows ≡ true
    → has_row p z rows ≡ ((x =? z) || has_row p z rows)
has_already p x z rows h =
    ground (arith, h, bytes_beq_iff x z, ap (λ y. has_row p y rows) {x = x} {y = z})

count_pos : (p x : Bytes) (rows : Rows) → has_row p x rows ≡ true → ltb 0 (count p rows) ≡ true
unfolding has_row count children
count_pos p x [] h = cc
count_pos p x ((q, y) ∷ rows) h = ground (arith, count_pos p x rows)

module _ ⦃c : Driver⦄ where
  -- The entries of the key, after each of the three parts.
  abbrev pub simple_row : Bytes → Option Bytes → Tables → Tables
  simple_row key none d = d
  simple_row key (some v) d = record d { simple_entries = upsert key v d.simple_entries }

  abbrev pub child_rows : Bytes → List Bytes → Tables → Tables
  child_rows key [] d = d
  child_rows key (x ∷ xs) d = child_rows key xs (append_row key x d).0

  abbrev pub lease_row : Bytes → ℕ → Tables → Tables
  lease_row key zero d = d
  lease_row key (suc n) d = record d {
    lease_entries = upsert key (to_int64 (suc n)) d.lease_entries;
  }

  pub import_simple-Ran :
      (May : Error → Type 0) (key : Bytes) (o : Option Bytes) (d : Tables)
      → Ran May (λ d' u. d' ≡ simple_row key o d) (import_simple key o d)
  unfolding import_simple
  import_simple-Ran May key none d = ran refl
  import_simple-Ran May key (some v) d = exec-Ran May _ simple_put _ d refl

  pub import_children-Ran :
      (May : Error → Type 0) (key : Bytes) (xs : List Bytes) (d : Tables)
      → Ran May (λ d' u. d' ≡ child_rows key xs d) (import_children key xs d)
  unfolding import_children
  import_children-Ran May key [] d = ran refl
  import_children-Ran May key (x ∷ xs) d =
      change-then May _ prefix_append (λ d. (append_row key x d).0) _ d
        (import_children-Ran May key xs (append_row key x d).0)

  pub import_lease-Ran :
      (May : Error → Type 0) (key : Bytes) (token : ℕ) (d : Tables)
      → Ran May (λ d' u. d' ≡ lease_row key token d) (import_lease key token d)
  unfolding import_lease
  import_lease-Ran May key zero d = ran refl
  import_lease-Ran May key (suc n) d = exec-Ran May _ lease_import _ d refl

  -- A change of the entries of one key, with the flags that they call for afterwards.
  pub record Part (key : Bytes) (x : Cell) (f : Flags) (d d' : Tables) : Type 0 where
    pub changed : Changed key x d d'
    pub flagged : flags_at key d' ≡ f

  same-Part : (key : Bytes) (d : Tables) → Part key (view d key) (flags_at key d) d d
  same-Part key d = record {
    changed = record {
      trackers = refl;
      flags = λ j ne. refl;
      shows = update_at key (view d key) (view d) (view d) refl (λ j ne. refl);
    };
    flagged = refl;
  }

  shown_at : (key : Bytes) (x : Cell) (d d' : Tables) → Changed key x d d' → view d' key ≡ x
  shown_at key x d d' ch = ap (λ s. s key) ch.shows ∙ rw ((bytes_beq_iff key key).1 refl) refl

  pub Part-trans :
      (key : Bytes) (x : Cell) (y : Cell → Cell) (f : Flags) (g : Flags → Flags) (d d1 d2 : Tables)
      → Part key x f d d1
      → Part key (y (view d1 key)) (g (flags_at key d1)) d1 d2
      → Part key (y x) (g f) d d2
  Part-trans key x y f g d d1 d2 p q = record {
    changed = record {
      trackers = q.changed.trackers ∙ p.changed.trackers;
      flags = λ j ne. q.changed.flags j ne ∙ p.changed.flags j ne;
      shows =
          update_at key (y x) (view d) (view d2)
            (shown_at key (y (view d1 key)) d1 d2 q.changed ∙ ap y (shown_at key x d d1 p.changed))
            (λ j ne.
              ap (λ s. s j) q.changed.shows ∙ (rw ne (ap (λ s. s j) p.changed.shows ∙ rw ne refl)));
    };
    flagged = q.flagged ∙ ap g p.flagged;
  }

  pub Part-eq :
      (key : Bytes) (x y : Cell) (f g : Flags) (d d' : Tables)
      → x ≡ y
      → f ≡ g
      → Part key x f d d'
      → Part key y g d d'
  Part-eq key x y f g d d' e e' p =
      subst (λ z. Part key z g d d') e (subst (λ h. Part key x h d d') e' p)

  pub simple_row-Part :
      (key : Bytes) (o : Option Bytes) (d : Tables)
      → Part key
          (record (view d key) { simple = or_else o (view d key).simple })
          (record (flags_at key d) { simple = (flags_at key d).simple || has_value o })
          d
          (simple_row key o d)
  simple_row-Part key none d =
      subst (λ f. Part key (view d key) f d d) (Flags-ext _ _ (ground arith) refl refl)
        (same-Part key d)
  simple_row-Part key (some v) d =
      let there = find-upsert_self key v d.simple_entries in
      record {
        changed =
            simple-Changed key (some v) _ d there
              (λ j ne. find-upsert_other key j v d.simple_entries ne);
        flagged = Flags-ext _ _ (ap is_some there ∙ ground arith) refl refl;
      }

  append_row-Part :
      (key x : Bytes) (d : Tables)
      → Part key
          (record (view d key) { has = λ z. (x =? z) || (view d key).has z })
          (record (flags_at key d) { prefix = true })
          d
          (append_row key x d).0
  unfolding append_row view
  append_row-Part key x d = elim (Bool-cases (has_row key x d.prefix_entries)) [
    | inl e ↦ rw e (
        Part-eq key _ _ _ _ d d
          (Cell-ext _ _ refl refl (λ z. has_already key x z d.prefix_entries e))
          (Flags-ext _ _ refl (count_pos key x d.prefix_entries e) refl) (same-Part key d))
    | inr e ↦ rw e (record {
      changed =
          prefix-Changed key (λ z. (x =? z) || has_row key z d.prefix_entries)
            ((key, x) ∷ d.prefix_entries) d (λ z. has_row-cons_self key x z d.prefix_entries)
            (λ j z ne. has_row-cons_other key x j z d.prefix_entries ne)
            (λ j ne. count-cons_other key x j d.prefix_entries ne);
      flagged = Flags-ext _ _ refl (count-cons_self key x d.prefix_entries) refl;
    })
  ]

  pub child_rows-Part :
      (key : Bytes) (xs : List Bytes) (d : Tables)
      → Part key
          (record (view d key) { has = λ z. member z xs || (view d key).has z })
          (record (flags_at key d) { prefix = (flags_at key d).prefix || ltb 0 (length xs) })
          d
          (child_rows key xs d)
  child_rows-Part key [] d =
      Part-eq key _ _ _ _ d d refl (Flags-ext _ _ refl (ground arith) refl) (same-Part key d)
  child_rows-Part key (x ∷ xs) d =
      let d1 = (append_row key x d).0 in
      Part-eq key _ _ _ _ d (child_rows key xs d1)
        (Cell-ext _ _ refl refl (λ z. or_swap (x =? z) (member z xs) ((view d key).has z)))
        (Flags-ext _ _ refl (ground arith) refl)
        (Part-trans key _ (λ c. record c { has = λ z. member z xs || c.has z }) _
          (λ f. record f { prefix = f.prefix || ltb 0 (length xs) }) d d1 (child_rows key xs d1)
          (append_row-Part key x d) (child_rows-Part key xs d1))

  pub lease_row-Part :
      (key : Bytes) (token : ℕ) (d : Tables)
      → token < 2 ^ 64
      → Part key
          (record (view d key) { lease = new_lease token (view d key).lease })
          (record (flags_at key d) { lease = (flags_at key d).lease || not (token == 0) })
          d
          (lease_row key token d)
  lease_row-Part key zero d h =
      subst (λ f. Part key (view d key) f d d) (Flags-ext _ _ refl refl (ground arith))
        (same-Part key d)
  lease_row-Part key (suc n) d h =
      let there = find-upsert_self key (to_int64 (suc n)) d.lease_entries in
      record {
        changed =
            subst (λ w. Changed key (record (view d key) { lease = w }) d (lease_row key (suc n) d))
              (from_int64-to_int64 (suc n) h)
              (lease-Changed key (some (to_int64 (suc n))) _ d there
                (λ j ne. find-upsert_other key j (to_int64 (suc n)) d.lease_entries ne));
        flagged = Flags-ext _ _ refl refl (ap is_some there ∙ ground arith);
      }
