-- ===== src/Config/Merges.antt =====
-- config/store.go: how a merge ends, and what two servers have that have merged each other.
use specter.Prelude.{
  ◌≡◌, refl, ap, sym, ◌∙◌, Option, none, some, inl, inr, List, [], ◌∷◌, Bytes, bytes_eq, bytes_beq,
  bytes_beq_iff, Bool-cases,
}
use specter.Errors.{Error, Result, ok, ◌>>=◌}
use specter.Containers.{find}
use specter.Kv.Sqlite.Schema.{set_row, find-set_row}
use specter.Config.{
  Document, Documents, Encoding, newer, write_row, write_records, check_records, read_error,
}
use specter.Config.Store.{Fate, upserted, changed_by, merge_change, merge_checked, merge, snapshot}
use specter.Config.Writes.{
  upsert_failed, Why, database, Written, changed_by-Written, refused_by-Written, write-Written,
}
use specter.Config.Order.{
  newest, newest_idem, newest_comm, newest_assoc, version_at, version_at-write_records,
  unchanged_records, IsTable, best-snapshot,
}

set_row-IsTable :
    (k : Bytes) (r : Document) (docs : Documents)
    → r.name ≡ k
    → IsTable docs
    → IsTable (set_row k r docs)
unfolding set_row
set_row-IsTable k r [] e h = tt
set_row-IsTable k r ((j, x) ∷ rest) e h =
    let later : find j (set_row k r rest) ≡ none =
      find-set_row k j r rest
      ∙ rw h.1 (elim (Bool-cases (bytes_beq k j)) [ inl s ↦ rw s refl | inr s ↦ rw s refl ]) in
    elim (Bool-cases (bytes_beq k j)) [
      | inl s ↦ rw s (e ∙ (bytes_beq_iff k j).0 s, later, set_row-IsTable k r rest e h.2)
      | inr s ↦ rw s (h.0, later, set_row-IsTable k r rest e h.2)
    ]

row-IsTable :
    (r : Document) (o : Option Document) (docs : Documents)
    → find r.name docs ≡ o
    → IsTable docs
    → IsTable (write_row r o docs).0
unfolding write_row
row-IsTable r none docs e h = (refl, e, h)
row-IsTable r (some old) docs e h = elim (Bool-cases (newer r.version old.version)) [
  | inl n ↦ rw n (set_row-IsTable r.name r docs refl h)
  | inr n ↦ rw n h
]

pub write_records-IsTable :
    (rs : List Document) (docs : Documents) → IsTable docs → IsTable (write_records rs docs).0
unfolding write_records
write_records-IsTable [] docs h = h
write_records-IsTable (r ∷ rs) docs h =
    write_records-IsTable rs _ (row-IsTable r (find r.name docs) docs refl h)

module _ ⦃c : Encoding⦄ where
  abbrev pub AnyResult : Unit {0} → Type 0
  AnyResult u = Unit

  -- A merge of checked records refuses nothing of itself.
  abbrev pub NoRefusal : Error → Type 0
  NoRefusal e = ⊥

  abbrev pub Merged : Fate → Documents → List Document → Documents × Result (Unit {0}) → Type 0
  Merged fate docs rs = Written AnyResult NoRefusal fate docs (write_records rs docs).0

  abbrev pub MergeWhy : Fate → Documents → List Document → Error → Type 0
  MergeWhy fate docs rs = Why AnyResult NoRefusal fate docs (write_records rs docs).0

  pub merge_change-Merged :
      (fate : Fate) (rs : List Document) (docs : Documents) (o : Option Error)
      → fate.upsert ≡ o
      → read_error docs ≡ none
      → Merged fate docs rs
          (changed_by fate docs (upserted o rs docs >>= λ written. ok (written, tt)))
  unfolding upserted
  merge_change-Merged fate rs docs none q sound =
      changed_by-Written AnyResult NoRefusal fate docs (write_records rs docs).0 sound
        (write_records rs docs).1 tt tt (unchanged_records rs docs)
  merge_change-Merged fate rs docs (some e) q sound =
      refused_by-Written AnyResult NoRefusal fate docs (write_records rs docs).0 sound e
        (database (upsert_failed q))

  pub merge-Merged :
      (fate : Fate) (rs : List Document) (docs : Documents)
      → check_records rs ≡ none
      → Merged fate docs rs (merge fate rs docs)
  unfolding merge merge_checked merge_change
  merge-Merged fate rs docs h = rw h (
      write-Written AnyResult NoRefusal fate docs (write_records rs docs).0 (merge_change fate rs)
        (λ sound. merge_change-Merged fate rs docs fate.upsert refl sound))

  -- The table has what both had, name by name.
  abbrev pub Both : Documents → Documents → Documents → Type 0
  Both a b d = (j : Bytes) → version_at j d ≡ newest (version_at j a) (version_at j b)

  -- The peer's table when it has merged the first server's.
  abbrev pub told : Documents → Documents → Documents
  told a b = (write_records (snapshot a) b).0

  pub from_peer : (a b : Documents) → IsTable a → Both a b (write_records (snapshot a) b).0
  from_peer a b h j =
      version_at-write_records j (snapshot a) b
      ∙ (ap (newest (version_at j b)) (best-snapshot j a h)
          ∙ newest_comm (version_at j b) (version_at j a))

  pub answer_back :
      (a b b' : Documents) → IsTable b' → Both a b b' → Both a b (write_records (snapshot b') a).0
  answer_back a b b' h both j =
      version_at-write_records j (snapshot b') a
      ∙ (ap (newest (version_at j a)) (best-snapshot j b' h ∙ both j)
          ∙ (sym (newest_assoc (version_at j a) (version_at j a) (version_at j b))
              ∙ ap (λ v. newest v (version_at j b)) (newest_idem (version_at j a))))
