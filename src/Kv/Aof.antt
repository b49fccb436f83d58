-- ===== src/Kv/Aof.antt =====
-- kv/aof/{kv,mutation,log,read_only,volatile}.go: the in-memory store behind an append-only log. The
-- log package, the generated encoders and the checksum are parameters. A panic in the serving loop
-- ends the process; here it is the error `panics`, and the log stays as it is on disk.
pub mod Durable
pub mod Replay
pub mod Recovery
pub mod Runs
pub mod Reopening
use specter.Prelude.{
  ℕ, zero, suc, ◌+◌, ◌-◌, ◌≡◌, Bool, true, false, ◌&&◌, Option, none, some, List, [], ◌∷◌, ◌++◌,
  Bytes, ◌==◌, nat_eq, if◌then◌else◌, length, get_elem?,
}
use specter.Prelude.Int.{ℤ}
use specter.Errors.{
  Error, Result, ok, err, chord, plain, wrapped, panics, kv_prefix_conflict, ◌>>=◌,
}
use specter.Kv.Spec.{Mutation, Transfer}
use specter.Kv.Memory.{Backend, MemoryKv, new_store}
use specter.Kv.Memory as Memory
use specter.Kv.Memory.Keys as Keys
use specter.Kv.Memory.Keys.{KeyComposite}
use specter.Kv.Memory.Leases as Leases
use specter.Kv.Memory.Refinement.{handle_mutation}
use specter.Kv.Sqlite.Provider.{batch}

-- proto.LogEntry; version 1 is LogVersion_V1.
pub record LogEntry : Type 0 where
  pub version : ℕ
  pub entry_data : Bytes
  pub checksum : ℕ

-- What a mutation is after it was encoded and decoded: an empty `value` is not written.
unfoldable pub stored : Mutation → Mutation
stored (Mutation.simple_put key (some [])) = Mutation.simple_put key none
stored m = m

-- The generated encoders, and crc64.Checksum.
pub record Codec : Type 0 where
  pub marshal : Mutation → Result Bytes
  pub unmarshal : Bytes → Result Mutation
  pub marshal_entry : LogEntry → Result Bytes
  pub unmarshal_entry : Bytes → Result LogEntry
  pub crc : Bytes → ℕ
  pub unmarshal-marshal :
      (m : Mutation) (x : Bytes) → marshal m ≡ ok x → unmarshal x ≡ ok (stored m)
  pub unmarshal_entry-marshal_entry :
      (e : LogEntry) (x : Bytes) → marshal_entry e ≡ ok x → unmarshal_entry x ≡ ok e

-- The log package: entries with indices from 1. A call that fails leaves the entries.
pub record Wal : Type 1 where
  pub Log : Type 0
  pub entries : Log → List Bytes
  -- LastIndex, Read, Write, TruncateBack
  pub last_index : Log → Result ℕ
  pub read : ℕ → Log → Result Bytes
  pub write : ℕ → Bytes → Log → Log × Option Error
  pub truncate_back : ℕ → Log → Log × Option Error
  pub last_index_lem : (l : Log) (n : ℕ) → last_index l ≡ ok n → n ≡ length (entries l)
  pub read_lem :
      (l : Log) (i : ℕ) (x : Bytes) → read (suc i) l ≡ ok x → get_elem? (entries l) i ≡ some x
  pub write_done :
      (l : Log) (i : ℕ) (x : Bytes)
      → (write i x l).1 ≡ none
      → (i ≡ suc (length (entries l))) × (entries (write i x l).0 ≡ entries l ++ (x ∷ []))
  pub write_failed :
      (l : Log) (i : ℕ) (x : Bytes) (e : Error)
      → (write i x l).1 ≡ some e
      → entries (write i x l).0 ≡ entries l
  pub truncate_done :
      (l : Log) (i : ℕ)
      → (truncate_back i l).1 ≡ none
      → entries (truncate_back i l).0 ≡ batch i (entries l)
  pub truncate_failed :
      (l : Log) (i : ℕ) (e : Error)
      → (truncate_back i l).1 ≡ some e
      → entries (truncate_back i l).0 ≡ entries l

-- fs.ErrClosed and fs.ErrInvalid
abbrev pub err_closed : Error
err_closed = plain "file already closed"

abbrev pub err_invalid : Error
err_invalid = plain "invalid argument"

-- errors.Is(err, chord.ErrKVPrefixConflict)
unfoldable pub is_conflict : Error → Bool
is_conflict (chord kv_prefix_conflict) = true
is_conflict (wrapped text e) = is_conflict e
is_conflict _ = false

unfoldable pub is_append : Mutation → Bool
is_append (Mutation.prefix_append key child) = true
is_append _ = false

module _ ⦃b : Backend⦄ ⦃c : Codec⦄ ⦃w : Wal⦄ where
  -- DiskKV, the part that changes.
  pub record DiskKv : Type 0 where
    pub log : w.Log
    pub counter : ℕ
    pub mem : MemoryKv
    pub closed : Bool

  -- decodeEntry
  unfoldable pub decode_entry : LogEntry → Result Mutation
  decode_entry e =
      if e.checksum == c.crc e.entry_data
      then if e.version == 1 then c.unmarshal e.entry_data else err (plain "unknown log version")
      else err (plain "log entry checksum does not match, possibly corrupted log")

  -- The check of the error in replayLogs.
  unfoldable pub replayed : Mutation → Option (MemoryKv × Option Error) → Result MemoryKv
  replayed mut none = err panics
  replayed mut (some (m, none)) = ok m
  replayed mut (some (m, some e)) =
      if is_append mut && is_conflict e
      then ok m
      else err (wrapped "error apply mutation to memory state" e)

  -- The context that the errors of replayLogs are given, less the index.
  unfoldable pub in_context : {A : Type 0} → Error → Result A
  in_context e = err (wrapped "error replaying the log" e)

  unfoldable pub replay_entry : Bytes → MemoryKv → Result MemoryKv
  replay_entry x m = elim (c.unmarshal_entry x) [
    | err e ↦ in_context e
    | ok entry ↦ elim (decode_entry entry) [
      | err e ↦ in_context e
      | ok mut ↦ replayed mut (handle_mutation mut m)
    ]
  ]

  -- The loop of replayLogs, with the number of rounds that are left.
  unfoldable pub replay_loop : ℕ → ℕ → w.Log → MemoryKv → Result MemoryKv
  replay_loop zero i l m = ok m
  replay_loop (suc n) i l m = elim (w.read i l) [
    | err e ↦ in_context e
    | ok x ↦ replay_entry x m >>= λ m'. replay_loop n (suc i) l m'
  ]

  -- New, with a log that is open: replayLogs into an empty store.
  unfoldable pub indexed : w.Log → Result ℕ → Result DiskKv
  indexed l (err e) = in_context e
  indexed l (ok index) = replay_loop index 1 l new_store >>= λ m.
      ok (record { log = l; counter = index + 1; mem = m; closed = false })

  unfoldable pub new : w.Log → Result DiskKv
  new l = indexed l (w.last_index l)

  -- appendLog
  unfoldable pub written : DiskKv → w.Log × Option Error → DiskKv × Option Error
  written d (l, none) = (record d { log = l; counter = d.counter + 1 }, none)
  written d (l, some e) = (record d { log = l }, some e)

  unfoldable pub framed : DiskKv → Result Bytes → DiskKv × Option Error
  framed d (err e) = (d, some e)
  framed d (ok x) = written d (w.write d.counter x d.log)

  unfoldable pub marshalled : DiskKv → Result Bytes → DiskKv × Option Error
  marshalled d (err e) = (d, some e)
  marshalled d (ok buf) =
      framed d (c.marshal_entry (record { version = 1; entry_data = buf; checksum = c.crc buf }))

  unfoldable pub append_log : Mutation → DiskKv → DiskKv × Option Error
  append_log mut d = marshalled d (c.marshal mut)

  -- rollbackOne: the error of TruncateBack is logged only.
  unfoldable pub rollback_one : DiskKv → DiskKv
  rollback_one d = record d {
    log = (w.truncate_back (d.counter - 1 - 1) d.log).0;
    counter = d.counter - 1;
  }

  -- A request in the loop of Start.
  unfoldable pub applied : DiskKv → Option (MemoryKv × Option Error) → DiskKv × Option Error
  applied d none = (d, some panics)
  applied d (some (m, none)) = (record d { mem = m }, none)
  applied d (some (m, some e)) = (rollback_one (record d { mem = m }), some e)

  unfoldable pub appended : Mutation → DiskKv × Option Error → DiskKv × Option Error
  appended mut (d, none) = applied d (handle_mutation mut d.mem)
  appended mut (d, some e) = (d, some err_invalid)

  unfoldable pub serve : Mutation → DiskKv → DiskKv × Option Error
  serve mut d = appended mut (append_log mut d)

  -- mutationHandler
  unfoldable pub mutation_handler : Mutation → DiskKv → DiskKv × Option Error
  mutation_handler mut d = if d.closed then (d, some err_closed) else serve mut d

  -- Stop
  unfoldable pub stop : DiskKv → DiskKv
  stop d = record d { closed = true }

  unfoldable pub put : Bytes → Option Bytes → DiskKv → DiskKv × Option Error
  put key value = mutation_handler (Mutation.simple_put key value)

  unfoldable pub delete : Bytes → DiskKv → DiskKv × Option Error
  delete key = mutation_handler (Mutation.simple_delete key)

  unfoldable pub prefix_append : Bytes → Bytes → DiskKv → DiskKv × Option Error
  prefix_append prefix child = mutation_handler (Mutation.prefix_append prefix child)

  unfoldable pub prefix_remove : Bytes → Bytes → DiskKv → DiskKv × Option Error
  prefix_remove prefix child = mutation_handler (Mutation.prefix_remove prefix child)

  unfoldable pub import : List Bytes → List Transfer → DiskKv → DiskKv × Option Error
  import keys values = mutation_handler (Mutation.import keys values)

  -- RemoveKeys drops the error.
  unfoldable pub remove_keys : List Bytes → DiskKv → DiskKv × Option Error
  remove_keys keys d = ((mutation_handler (Mutation.remove_keys keys) d).0, none)

  -- Get
  unfoldable pub get : Bytes → DiskKv → Option Bytes
  get key d = Memory.get key d.mem

  -- read_only.go
  unfoldable pub prefix_list : Bytes → DiskKv → List Bytes
  prefix_list prefix d = Memory.prefix_list prefix d.mem

  unfoldable pub prefix_contains : Bytes → Bytes → DiskKv → Bool
  prefix_contains prefix child d = Memory.prefix_contains prefix child d.mem

  unfoldable pub list_keys : Bytes → DiskKv → List KeyComposite
  list_keys prefix d = Keys.list_keys prefix d.mem

  unfoldable pub export : List Bytes → DiskKv → List Transfer
  export keys d = Keys.export keys d.mem

  unfoldable pub range_keys : ℕ → ℕ → DiskKv → List Bytes
  range_keys low high d = Keys.range_keys low high d.mem

  -- volatile.go
  unfoldable pub acquire : Bytes → ℤ → ℤ → DiskKv → DiskKv × Result ℕ
  acquire lease ttl now d =
      let r = Leases.acquire lease ttl now d.mem in (record d { mem = r.0 }, r.1)

  unfoldable pub renew : Bytes → ℤ → ℤ → ℕ → DiskKv → DiskKv × Result ℕ
  renew lease ttl now prev_token d =
      let r = Leases.renew lease ttl now prev_token d.mem in (record d { mem = r.0 }, r.1)

  unfoldable pub release : Bytes → ℕ → DiskKv → DiskKv × Result ℕ
  release lease token d = let r = Leases.release lease token d.mem in (record d { mem = r.0 }, r.1)
