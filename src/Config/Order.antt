-- ===== src/Config/Order.antt =====
-- config/record.go: versions in their order, and the newest version of each name.
use specter.Prelude.{
  ◌≡◌, refl, ap, sym, subst, ◌∙◌, true, false, Option, none, some, inl, inr, List, [], ◌∷◌, Bytes,
  bytes_eq, bytes_beq, bytes_beq_iff, ◌=?◌, nat_eq, if◌then◌else◌, Bool-cases, arith,
}
use specter.Containers.{find}
use specter.Kv.Sqlite.Schema.{find-set_row}
use specter.Config.{Version, Document, Documents, newer, write_row, write_records}
use specter.Config.Store.{name_leb, insert_by_name, snapshot}

Version-ext :
    (a b : Version) → a.schema ≡ b.schema → a.revision ≡ b.revision → a.digest ≡ b.digest → a ≡ b
Version-ext a b s r d = λ i. record { schema = s i; revision = r i; digest = d i }

-- The newer of two versions, where they are there.
abbrev pub newest : Option Version → Option Version → Option Version
newest none b = b
newest (some a) none = some a
newest (some a) (some b) = if newer b a then some b else some a

pub newest-none : (a : Option Version) → newest a none ≡ a
newest-none none = refl
newest-none (some a) = refl

newer_asym : (a b : Version) → newer a b ≡ true → newer b a ≡ false
unfolding newer
newer_asym a b h = ground (arith, h)

newer_trans : (a b c : Version) → newer a b ≡ true → newer b c ≡ true → newer a c ≡ true
unfolding newer
newer_trans a b c h k = ground (arith, h, k)

not_newer_trans : (a b c : Version) → newer a b ≡ false → newer b c ≡ false → newer a c ≡ false
unfolding newer
not_newer_trans a b c h k = ground (arith, h, k)

newer_total : (a b : Version) → newer a b ≡ false → newer b a ≡ false → a ≡ b
unfolding newer
newer_total a b h k =
    Version-ext a b (ground (arith, h, k)) (ground (arith, h, k)) (ground (arith, h, k))

newer_irrefl : (a : Version) → newer a a ≡ false
unfolding newer
newer_irrefl a = ground arith

pub newest_idem : (a : Option Version) → newest a a ≡ a
newest_idem none = refl
newest_idem (some a) = rw (newer_irrefl a) refl

pub newest_comm : (a b : Option Version) → newest a b ≡ newest b a
newest_comm none b = sym (newest-none b)
newest_comm (some a) none = refl
newest_comm (some a) (some b) = elim (Bool-cases (newer b a)) [
  | inl e ↦ rw (e, newer_asym b a e) refl
  | inr e ↦ elim (Bool-cases (newer a b)) [
    | inl e' ↦ rw (e, e') refl
    | inr e' ↦ rw (e, e') (ap (λ x. some x) (newer_total a b e' e))
  ]
]

pub newest_assoc : (a b c : Option Version) → newest (newest a b) c ≡ newest a (newest b c)
newest_assoc none b c = refl
newest_assoc (some a) none c = refl
newest_assoc (some a) (some b) none = newest-none _
newest_assoc (some a) (some b) (some c) = elim (Bool-cases (newer b a)) [
  | inl p ↦ elim (Bool-cases (newer c b)) [
    | inl q ↦ rw (p, q, newer_trans c b a q p) refl
    | inr q ↦ rw (p, q, p) refl
  ]
  | inr p ↦ elim (Bool-cases (newer c b)) [
    | inl q ↦ rw (p, q) refl
    | inr q ↦ rw (p, q, not_newer_trans c b a q p, p) refl
  ]
]

abbrev pub version_of : Option Document → Option Version
version_of none = none
version_of (some r) = some r.version

abbrev pub version_at : Bytes → Documents → Option Version
version_at j docs = version_of (find j docs)

abbrev pub named : Bytes → Document → Option Version
named j r = if r.name =? j then some r.version else none

-- The newest version under a name in a list.
abbrev pub best : Bytes → List Document → Option Version
best j [] = none
best j (r ∷ rs) = newest (named j r) (best j rs)

row_case :
    (j : Bytes) (r : Document) (o : Option Document) (docs : Documents)
    → find r.name docs ≡ o
    → version_at j (write_row r o docs).0 ≡ newest (version_at j docs) (named j r)
unfolding write_row
row_case j r none docs e = elim (Bool-cases (bytes_beq r.name j)) [
  | inl same ↦ rw (same, subst (λ k. find k docs ≡ none) ((bytes_beq_iff r.name j).0 same) e) refl
  | inr other ↦ rw other (sym (newest-none (version_at j docs)))
]
row_case j r (some old) docs e = elim (Bool-cases (bytes_beq r.name j)) [
  | inl same ↦
      let there = subst (λ k. find k docs ≡ some old) ((bytes_beq_iff r.name j).0 same) e in
      elim (Bool-cases (newer r.version old.version)) [
        | inl n ↦
            rw (same, there, n)
              (ap version_of {y = some r} (find-set_row r.name j r docs ∙ rw (same, there) refl))
        | inr n ↦ rw (same, there, n) (ap version_of there)
      ]
  | inr other ↦ elim (Bool-cases (newer r.version old.version)) [
    | inl n ↦
        rw (other, n)
          (ap version_of (find-set_row r.name j r docs ∙ rw other refl)
            ∙ sym (newest-none (version_at j docs)))
    | inr n ↦ rw (other, n) (sym (newest-none (version_at j docs)))
  ]
]

-- After the records were written, each name has the newest of its version and theirs.
pub version_at-write_records :
    (j : Bytes) (rs : List Document) (docs : Documents)
    → version_at j (write_records rs docs).0 ≡ newest (version_at j docs) (best j rs)
unfolding write_records
version_at-write_records j [] docs = sym (newest-none (version_at j docs))
version_at-write_records j (r ∷ rs) docs =
    let docs' = (write_row r (find r.name docs) docs).0 in
    version_at-write_records j rs docs'
    ∙ (ap (λ v. newest v (best j rs)) (row_case j r (find r.name docs) docs refl)
        ∙ newest_assoc (version_at j docs) (named j r) (best j rs))

unchanged_row :
    (r : Document) (o : Option Document) (docs : Documents)
    → (write_row r o docs).1 ≡ false
    → (write_row r o docs).0 ≡ docs
unfolding write_row
unchanged_row r none docs h = cc
unchanged_row r (some old) docs h = ground (arith, h)

pub unchanged_records :
    (rs : List Document) (docs : Documents)
    → (write_records rs docs).1 ≡ false
    → (write_records rs docs).0 ≡ docs
unfolding write_records
unchanged_records [] docs h = refl
unchanged_records (r ∷ rs) docs h =
    let row = write_row r (find r.name docs) docs in
    unchanged_records rs row.0 (ground (arith, h))
    ∙ unchanged_row r (find r.name docs) docs (ground (arith, h))

best-insert :
    (j : Bytes) (r : Document) (rs : List Document)
    → best j (insert_by_name r rs) ≡ newest (named j r) (best j rs)
unfolding insert_by_name
best-insert j r [] = refl
best-insert j r (x ∷ xs) = elim (Bool-cases (name_leb r.name x.name)) [
  | inl e ↦ rw e refl
  | inr e ↦ rw e (
      ap (newest (named j x)) (best-insert j r xs)
      ∙ (sym (newest_assoc (named j x) (named j r) (best j xs))
          ∙ (ap (λ v. newest v (best j xs)) (newest_comm (named j x) (named j r))
              ∙ newest_assoc (named j r) (named j x) (best j xs))))
]

-- Each row stands under the name of its document, and each name once.
abbrev pub IsTable : Documents → Type 0
IsTable [] = Unit
IsTable ((k, r) ∷ rest) = (r.name ≡ k) × (find k rest ≡ none) × IsTable rest

-- A snapshot has the version of every name.
pub best-snapshot :
    (j : Bytes) (docs : Documents) → IsTable docs → best j (snapshot docs) ≡ version_at j docs
unfolding snapshot
best-snapshot j [] h = refl
best-snapshot j ((k, r) ∷ rest) h =
    best-insert j r (snapshot rest)
    ∙ (ap (newest (named j r)) (best-snapshot j rest h.2)
        ∙ rw h.0 (elim (Bool-cases (bytes_beq k j)) [
          | inl e ↦ rw (e, subst (λ i. find i rest ≡ none) ((bytes_beq_iff k j).0 e) h.1) refl
          | inr e ↦ rw e refl
        ]))
