-- ===== src/Examples/Log.antt =====
-- A log that is a list, and an encoder of a few mutations.
use specter.Prelude.{
  ℕ, zero, suc, ◌≡◌, ◌≢◌, refl, ap, sym, subst, false, Option, none, some, List, [], ◌∷◌, ◌++◌,
  Bytes, ◌==◌, ==_iff, nat_eq, if◌then◌else◌, length, get_elem?, inl, inr, Bool-cases,
}
use specter.Errors.{Error, Result, ok, err, plain, panics}
use specter.Kv.Spec.{Mutation}
use specter.Kv.Memory.{new_store}
use specter.Kv.Memory.Refinement.{handle_mutation}
use specter.Kv.Memory.Keys.{import as import_keys}
use specter.Kv.Sqlite.Provider.{batch}
use specter.Kv.Aof.{
  LogEntry, Codec, Wal, stored, DiskKv, mutation_handler, serve, append_log, marshalled, framed,
  written, appended, applied, new,
}
use specter.Kv.Aof.Replay.{replay_all}
use specter.Kv.Aof.Recovery.{IsDurable, Served, mutation_handler-Served}
use specter.Kv.Aof.Reopening.{Reopened}
use specter.Kv.Aof.Runs.{Steps, no_step, then_step, mutated, run-Reopened, panic_persists}
use specter.Examples.Store.{backend}

abbrev refused : Error
refused = plain "refused"

abbrev marshal : Mutation → Result Bytes
marshal (Mutation.simple_put k none) = ok (0 ∷ k)
marshal (Mutation.simple_put k (some [])) = ok (0 ∷ k)
marshal (Mutation.simple_delete k) = ok (1 ∷ k)
marshal (Mutation.import (k ∷ []) []) = ok (2 ∷ k)
marshal _ = err refused

abbrev unmarshal : Bytes → Result Mutation
unmarshal (zero ∷ k) = ok (Mutation.simple_put k none)
unmarshal (suc zero ∷ k) = ok (Mutation.simple_delete k)
unmarshal (suc (suc zero) ∷ k) = ok (Mutation.import (k ∷ []) [])
unmarshal _ = err refused

abbrev value_of : Result Bytes → Bytes
value_of (ok x) = x
value_of (err e) = []

unmarshal-marshal_lem : (m : Mutation) (x : Bytes) → marshal m ≡ ok x → unmarshal x ≡ ok (stored m)
unfolding stored
unmarshal-marshal_lem (Mutation.simple_put k none) x h =
    subst (λ y. unmarshal y ≡ ok (Mutation.simple_put k none)) (ap value_of h) refl
unmarshal-marshal_lem (Mutation.simple_put k (some [])) x h =
    subst (λ y. unmarshal y ≡ ok (Mutation.simple_put k none)) (ap value_of h) refl
unmarshal-marshal_lem (Mutation.simple_put k (some (v ∷ vs))) x h = absurd cc
unmarshal-marshal_lem (Mutation.simple_delete k) x h =
    subst (λ y. unmarshal y ≡ ok (Mutation.simple_delete k)) (ap value_of h) refl
unmarshal-marshal_lem (Mutation.prefix_append k c) x h = absurd cc
unmarshal-marshal_lem (Mutation.prefix_remove k c) x h = absurd cc
unmarshal-marshal_lem (Mutation.import [] vs) x h = absurd cc
unmarshal-marshal_lem (Mutation.import (k ∷ []) []) x h =
    subst (λ y. unmarshal y ≡ ok (Mutation.import (k ∷ []) [])) (ap value_of h) refl
unmarshal-marshal_lem (Mutation.import (k ∷ []) (v ∷ vs)) x h = absurd cc
unmarshal-marshal_lem (Mutation.import (k ∷ j ∷ ks) vs) x h = absurd cc
unmarshal-marshal_lem (Mutation.remove_keys ks) x h = absurd cc

abbrev unmarshal_entry : Bytes → Result LogEntry
unmarshal_entry (v ∷ c ∷ d) = ok (record { version = v; entry_data = d; checksum = c })
unmarshal_entry _ = err refused

instance abbrev codec : Codec
codec = record {
  marshal = marshal;
  unmarshal = unmarshal;
  marshal_entry = λ e. ok (e.version ∷ e.checksum ∷ e.entry_data);
  unmarshal_entry = unmarshal_entry;
  crc = λ x. length x;
  unmarshal-marshal = unmarshal-marshal_lem;
  unmarshal_entry-marshal_entry =
      λ e x h. subst (λ y. unmarshal_entry y ≡ ok e) (ap value_of h) refl;
}

abbrev found : Option Bytes → Result Bytes
found none = err refused
found (some x) = ok x

abbrev read : ℕ → List Bytes → Result Bytes
read zero l = err refused
read (suc i) l = found (get_elem? l i)

found_lem : (o : Option Bytes) (x : Bytes) → found o ≡ ok x → o ≡ some x
found_lem none x h = absurd cc
found_lem (some y) x h = ap (λ r. some (value_of r)) h

abbrev write : ℕ → Bytes → List Bytes → List Bytes × Option Error
write i x l = if i == suc (length l) then (l ++ (x ∷ []), none) else (l, some refused)

write_done_lem :
    (l : List Bytes) (i : ℕ) (x : Bytes)
    → (write i x l).1 ≡ none
    → (i ≡ suc (length l)) × ((write i x l).0 ≡ l ++ (x ∷ []))
write_done_lem l i x h = elim (Bool-cases (i == suc (length l))) [
  | inl e ↦ rw e ((==_iff _ _).0 e, refl)
  | inr e ↦ absurd (cc (h, e))
]

write_failed_lem :
    (l : List Bytes) (i : ℕ) (x : Bytes) (e : Error)
    → (write i x l).1 ≡ some e
    → (write i x l).0 ≡ l
write_failed_lem l i x f h = elim (Bool-cases (i == suc (length l))) [
  | inl e ↦ absurd (cc (h, e))
  | inr e ↦ rw e refl
]

index_of : Result ℕ → ℕ
index_of (ok n) = n
index_of (err e) = 0

last_index_lem : (l : List Bytes) (n : ℕ) → ok (length l) ≡ ok n → n ≡ length l
unfolding index_of
last_index_lem l n h = sym (ap index_of h)

truncate_failed_lem : (l : List Bytes) (i : ℕ) (e : Error) → none ≡ some e → batch i l ≡ l
truncate_failed_lem l i e h = absurd cc

instance abbrev wal : Wal
wal = record {
  Log = List Bytes;
  entries = λ l. l;
  last_index = λ l. ok (length l);
  read = read;
  write = write;
  truncate_back = λ i l. (batch i l, none);
  last_index_lem = last_index_lem;
  read_lem = λ l i x h. found_lem (get_elem? l i) x h;
  write_done = write_done_lem;
  write_failed = write_failed_lem;
  truncate_done = λ l i h. refl;
  truncate_failed = truncate_failed_lem;
}

abbrev fresh : DiskKv
fresh = record { log = []; counter = 1; mem = new_store; closed = false }

fresh-IsDurable : IsDurable fresh
unfolding replay_all
fresh-IsDurable = record { from_log = new_store; replays = refl; agrees = refl }

abbrev empty_put : Mutation
empty_put = Mutation.simple_put (1 ∷ []) (some [])

mutation_handler-Served_example : Served empty_put fresh (mutation_handler empty_put fresh)
mutation_handler-Served_example = mutation_handler-Served empty_put fresh fresh-IsDurable

put_once : Steps fresh (mutation_handler empty_put fresh).0
put_once = then_step no_step (mutated empty_put (λ e. cc))

run-Reopened_example :
    Reopened (mutation_handler empty_put fresh).0 (new (mutation_handler empty_put fresh).0.log)
run-Reopened_example =
    run-Reopened fresh (mutation_handler empty_put fresh).0 fresh-IsDurable put_once

abbrev short_import : Mutation
short_import = Mutation.import ((1 ∷ []) ∷ []) []

abbrev stuck : DiskKv
stuck = record { log = (1 ∷ 2 ∷ 2 ∷ 1 ∷ []) ∷ []; counter = 2; mem = new_store; closed = false }

short_import_panics : mutation_handler short_import fresh ≡ (stuck, some panics)
unfolding mutation_handler serve append_log marshalled framed written appended applied
    handle_mutation import_keys
short_import_panics = refl

panic_persists_example : new stuck.log ≢ ok fresh
panic_persists_example =
    panic_persists short_import fresh stuck fresh-IsDurable short_import_panics fresh
