-- ===== src/Examples/Config.antt =====
-- Two servers with one document each has a version of, and one that only the second has.
use specter.Prelude.{
  ℕ, zero, suc, ◌≤◌, ◌≡◌, arith, bytes_eq, refl, ap, sym, subst, ◌∙◌, inl, inr, Bool-cases, some,
  none, List, [], ◌∷◌, ◌++◌, Bytes, length, true, leb, if◌then◌else◌,
}
use specter.Errors.{Result, ok, err}
use specter.Containers.{find}
use specter.Tun.Text.{take, drop}
use specter.Config.{newer, Document, Documents, Encoding, max_snapshot_bytes, err_too_large}
use specter.Config.Store.{no_failure, put}
use specter.Config.Writes.{Written}
use specter.Config.Sync.{Json, Envelope, envelope, err_format, Side, delivered, sync}
use specter.Config.Convergence.{Exchanged, exchange-Exchanged}
use specter.Config.Revisions.{PutWell, Refusal, put_table}
use specter.Config.Saves.{put-Written}
use specter.Examples.Encoding.{take-append, drop-append, ok_eq}
use specter.Config.VersionBytes.{
  compare_bytes, version_bytes, compare_version, is_more, version_bytes-newer,
}

instance abbrev encoding : Encoding
encoding = record { sha256 = λ x. length x; json_length = λ r. 40; plain_text = λ x. true }

abbrev old_rules : Document
old_rules = record {
  name = 1 ∷ [];
  version = record { schema = 1; revision = 2; digest = 1 };
  value = 7 ∷ [];
}

abbrev new_rules : Document
new_rules = record {
  name = 1 ∷ [];
  version = record { schema = 1; revision = 3; digest = 0 };
  value = [];
}

abbrev limits : Document
limits = record {
  name = 2 ∷ [];
  version = record { schema = 4; revision = 1; digest = 2 };
  value = 5 ∷ 6 ∷ [];
}

abbrev first_server : Documents
first_server = (1 ∷ [], old_rules) ∷ []

abbrev second_server : Documents
second_server = (1 ∷ [], new_rules) ∷ (2 ∷ [], limits) ∷ []

-- The text of a snapshot: every field written out.
abbrev write_docs : List Document → Bytes
write_docs [] = []
write_docs (r ∷ rs) =
    length r.name
    ∷ (r.name
        ++ (r.version.schema
            ∷ r.version.revision
            ∷ r.version.digest
            ∷ length r.value
            ∷ (r.value ++ write_docs rs)))

abbrev with_name : Bytes → Bytes → Document × Bytes
with_name name (schema ∷ revision ∷ digest ∷ size ∷ rest) = (
  record {
    name = name;
    version = record { schema = schema; revision = revision; digest = digest };
    value = take size rest;
  },
  drop size rest,
)
with_name name _ = (limits, [])

abbrev read_docs : ℕ → Bytes → List Document
read_docs zero b = []
read_docs (suc n) [] = []
read_docs (suc n) (size ∷ b) =
    let (r, rest) = with_name (take size b) (drop size b) in r ∷ read_docs n rest

read-write_docs : (rs : List Document) → read_docs (length rs) (write_docs rs) ≡ rs
read-write_docs [] = refl
read-write_docs (r ∷ rs) =
    let after : Bytes =
      r.version.schema
      ∷ r.version.revision
      ∷ r.version.digest
      ∷ length r.value
      ∷ (r.value ++ write_docs rs) in
    rw
      (
        take-append r.name after,
        drop-append r.name after,
        take-append r.value (write_docs rs),
        drop-append r.value (write_docs rs),
        read-write_docs rs,
      )
      refl

abbrev write_envelope : Envelope → Result Bytes
write_envelope e = elim e.records [
  | none ↦ err err_format
  | some rs ↦
      let x = e.format ∷ length rs ∷ write_docs rs in
      if leb (length x) max_snapshot_bytes then ok x else err err_too_large
]

abbrev read_envelope : Bytes → Result Envelope
read_envelope (format ∷ count ∷ b) =
    ok (record { format = format; records = some (read_docs count b) })
read_envelope _ = err err_format

written_as :
    (rs : List Document) (x : Bytes)
    → write_envelope (envelope rs) ≡ ok x
    → (1 ∷ length rs ∷ write_docs rs ≡ x) × (length x ≤ max_snapshot_bytes)
written_as rs x h =
    elim (Bool-cases (leb (length (1 ∷ length rs ∷ write_docs rs)) max_snapshot_bytes)) [
      | inl fits ↦
          let same : 1 ∷ length rs ∷ write_docs rs ≡ x = ok_eq (rw fits at h) in
          (same, subst (λ (y : Bytes). length y ≤ max_snapshot_bytes) same (ground (arith, fits)))
      | inr long ↦ cc (rw long at h)
    ]

instance abbrev json : Json
json = record {
  marshal = write_envelope;
  decode = read_envelope;
  decode-marshal = λ rs x valid h.
      ap read_envelope (sym (written_as rs x h).0)
      ∙ ap (λ xs. ok (envelope xs)) (read-write_docs rs);
  marshal_bounded = λ rs x valid h. (written_as rs x h).1;
}

abbrev calm : Side
calm = record { merging = no_failure; snapshot_conn = none; snapshot_read = none }

exchange-Exchanged_example :
    Exchanged delivered calm calm first_server second_server
      (sync delivered calm calm first_server second_server)
exchange-Exchanged_example =
    exchange-Exchanged delivered calm calm first_server second_server (refl, refl, tt)
      (refl, refl, (refl, refl, tt))

put-Written_example :
    Written
      (PutWell
        (1 ∷ [])
        1
        (9 ∷ [])
        (some (1 ∷ [], old_rules.version))
        first_server
        (put_table (1 ∷ []) 1 (9 ∷ []) first_server))
      (Refusal (1 ∷ []) 1 (9 ∷ []) (some (1 ∷ [], old_rules.version)) (find (1 ∷ []) first_server))
      no_failure
      first_server
      (put_table (1 ∷ []) 1 (9 ∷ []) first_server)
      (put no_failure (1 ∷ []) 1 (9 ∷ []) (some (1 ∷ [], old_rules.version)) first_server)
put-Written_example =
    put-Written no_failure (1 ∷ []) 1 (9 ∷ []) (some (1 ∷ [], old_rules.version)) first_server

version_bytes-newer_example :
    (compare_bytes (version_bytes new_rules.version) (version_bytes old_rules.version)
      ≡ compare_version new_rules.version old_rules.version)
    × (is_more (compare_bytes (version_bytes new_rules.version) (version_bytes old_rules.version))
        ≡ newer new_rules.version old_rules.version)
version_bytes-newer_example =
    version_bytes-newer new_rules.version old_rules.version (omega arith) (omega arith)
      (omega arith) (omega arith) (omega arith) (omega arith)
