-- ===== src/Kv/Aof/Recovery.antt =====
-- kv/aof/{kv,mutation,log}.go: the log stands for the store, and a start from it gives the store
-- back.
use specter.Prelude.{
  ℕ, suc, ◌+◌, ◌-◌, ◌≡◌, refl, ap, sym, ◌∙◌, Bool, true, false, Option, none, some, [], ◌∷◌, ◌++◌,
  Bytes, if◌then◌else◌, length, arith,
}
use specter.Errors.{Error, Result, ok, err, panics, ◌>>=◌}
use specter.Kv.Spec.{Mutation, Cells, spec_step}
use specter.Kv.Memory.{Backend, MemoryKv, new_store}
use specter.Kv.Memory.View.{view}
use specter.Kv.Memory.Refinement.{seen, handle_mutation, handle_mutation-refines}
use specter.Kv.Sqlite.Provider.{batch}
use specter.Kv.Aof.{
  Codec, Wal, stored, err_closed, err_invalid, DiskKv, replayed, replay_entry, written, framed,
  marshalled, append_log, rollback_one, applied, appended, serve, mutation_handler,
}
use specter.Kv.Aof.Durable.{durable, durable_out, stored_step, step_error}
use specter.Kv.Aof.Replay.{batch_all, replay_all, replay_all-append, replay_entry-marshal}

module _ ⦃b : Backend⦄ ⦃c : Codec⦄ ⦃w : Wal⦄ where
  -- The entries, replayed into an empty store, give what the log keeps of the store.
  pub record IsDurable (d : DiskKv) : Type 0 where
    pub from_log : MemoryKv
    pub replays : replay_all (w.entries d.log) new_store ≡ ok from_log
    pub agrees : durable (view from_log) ≡ durable (view d.mem)

  out_cells : Cells → Option (Cells × Option Error) → Cells
  out_cells s none = s
  out_cells s (some (t, e)) = t

  replayed_as :
      (mut : Mutation) (m' : MemoryKv) (e : Option Error) (t : MemoryKv)
      (o : Option (MemoryKv × Option Error))
      → handle_mutation mut t ≡ o
      → durable_out (seen (some (m', e))) ≡ durable_out (seen o)
      → (t' : MemoryKv) × (replayed mut o ≡ ok t') × (durable (view t') ≡ durable (view m'))
  unfolding out_cells replayed
  replayed_as mut m' e t none h same = absurd cc
  replayed_as mut m' e t (some (t', none)) h same = (t', refl, sym (ap (out_cells (view m')) same))
  replayed_as mut m' e t (some (t', some x)) h same = (
    t',
    rw ((step_error mut (view t) (view t') x (sym (handle_mutation-refines mut t) ∙ ap seen h)).0)
        refl,
    sym (ap (out_cells (view m')) same),
  )

  same_out :
      (mut : Mutation) (m t : MemoryKv)
      → durable (view t) ≡ durable (view m)
      → durable_out (seen (handle_mutation mut m))
        ≡ durable_out (seen (handle_mutation (stored mut) t))
  same_out mut m t agrees =
      ap durable_out (handle_mutation-refines mut m)
      ∙ (stored_step mut (view m) (view t) (sym agrees)
          ∙ sym (ap durable_out (handle_mutation-refines (stored mut) t)))

  -- On a store that agrees with the one before, a stored mutation leads to one that agrees with
  -- the one after.
  replayed-stored :
      (mut : Mutation) (m m' t : MemoryKv) (e : Option Error)
      → durable (view t) ≡ durable (view m)
      → handle_mutation mut m ≡ some (m', e)
      → (t' : MemoryKv) × (replayed (stored mut) (handle_mutation (stored mut) t) ≡ ok t')
        × (durable (view t') ≡ durable (view m'))
  replayed-stored mut m m' t e agrees h =
      replayed_as (stored mut) m' e t (handle_mutation (stored mut) t) refl
        (ap (λ o. durable_out (seen o)) (sym h) ∙ same_out mut m t agrees)

  replayed_panic :
      (mut : Mutation) (o : Option (MemoryKv × Option Error))
      → durable_out none ≡ durable_out (seen o)
      → replayed mut o ≡ err panics
  unfolding replayed
  replayed_panic mut none e = refl
  replayed_panic mut (some (m, x)) e = absurd cc

  stored_panic :
      (mut : Mutation) (m t : MemoryKv)
      → durable (view t) ≡ durable (view m)
      → handle_mutation mut m ≡ none
      → replayed (stored mut) (handle_mutation (stored mut) t) ≡ err panics
  stored_panic mut m t agrees h =
      replayed_panic (stored mut) (handle_mutation (stored mut) t)
        (ap (λ o. durable_out (seen o)) (sym h) ∙ same_out mut m t agrees)

  -- The log package cannot take the entry of a mutation: one of the two encoders fails, or the
  -- write of what they gave does.
  pub data Unwritten (mut : Mutation) (d : DiskKv) : Type 0 where
    no_mutation : {e : Error} → c.marshal mut ≡ err e → Unwritten mut d
    no_entry :
        {buf : Bytes} {e : Error}
        → c.marshal mut ≡ ok buf
        → c.marshal_entry (record { version = 1; entry_data = buf; checksum = c.crc buf }) ≡ err e
        → Unwritten mut d
    no_write :
        {buf x : Bytes} {e : Error}
        → c.marshal mut ≡ ok buf
        → c.marshal_entry (record { version = 1; entry_data = buf; checksum = c.crc buf }) ≡ ok x
        → (w.write d.counter x d.log).1 ≡ some e
        → Unwritten mut d

  -- How a mutation of the store ends.
  pub data Served (mut : Mutation) (d : DiskKv) : DiskKv × Option Error → Type 0 where
    was_closed : d.closed ≡ true → Served mut d (d, some err_closed)
    unlogged :
        {d' : DiskKv}
        → d.closed ≡ false
        → Unwritten mut d
        → d'.mem ≡ d.mem
        → w.entries d'.log ≡ w.entries d.log
        → IsDurable d'
        → Served mut d (d', some err_invalid)
    carried_out :
        {d' : DiskKv} {e : Option Error}
        → d.closed ≡ false
        → spec_step mut (view d.mem) ≡ some (view d'.mem, e)
        → IsDurable d'
        → Served mut d (d', e)
    crashed :
        {d' : DiskKv}
        → d.closed ≡ false
        → spec_step mut (view d.mem) ≡ none
        → replay_all (w.entries d'.log) new_store ≡ err panics
        → Served mut d (d', some panics)

  same_entries-IsDurable :
      (d : DiskKv) (l : w.Log) (n : ℕ)
      → IsDurable d
      → w.entries l ≡ w.entries d.log
      → IsDurable (record d { log = l; counter = n })
  same_entries-IsDurable d l n h e = record {
    from_log = h.from_log;
    replays = ap (λ xs. replay_all xs new_store) e ∙ h.replays;
    agrees = h.agrees;
  }

  -- The entry of a mutation was written, and the mutation was applied.
  extended :
      (mut : Mutation) (d : DiskKv) (l : w.Log) (n : ℕ) (x : Bytes) (m' : MemoryKv)
      (e : Option Error)
      → IsDurable d
      → w.entries l ≡ w.entries d.log ++ (x ∷ [])
      → ((t : MemoryKv) → replay_entry x t ≡ replayed (stored mut) (handle_mutation (stored mut) t))
      → handle_mutation mut d.mem ≡ some (m', e)
      → IsDurable (record d { log = l; counter = n; mem = m' })
  extended mut d l n x m' e h grown entry ran =
      let (t', replays, agrees) = replayed-stored mut d.mem m' h.from_log e h.agrees ran in
      record {
        from_log = t';
        replays =
            ap (λ xs. replay_all xs new_store) grown
            ∙ (replay_all-append (w.entries d.log) x new_store
                ∙ (ap (λ r. r >>= replay_entry x) h.replays ∙ (entry h.from_log ∙ replays)));
        agrees = agrees;
      }

  rolled_back :
      (d : DiskKv) (l l' : w.Log) (n : ℕ) (x : Bytes) (m' : MemoryKv) (o : Option Error)
      → IsDurable d
      → IsDurable (record d { log = l; counter = n + 1; mem = m' })
      → n ≡ suc (length (w.entries d.log))
      → w.entries l ≡ w.entries d.log ++ (x ∷ [])
      → view m' ≡ view d.mem
      → l' ≡ (w.truncate_back (n + 1 - 1 - 1) l).0
      → (w.truncate_back (n + 1 - 1 - 1) l).1 ≡ o
      → IsDurable (record d { log = l'; counter = n + 1 - 1; mem = m' })
  rolled_back d l l' n x m' none h h' counted grown same q e =
      let back : w.entries l' ≡ w.entries d.log =
        ap w.entries q
        ∙ (w.truncate_done l (n + 1 - 1 - 1) e
            ∙ (ap (batch (n + 1 - 1 - 1)) grown
                ∙ batch_all (n + 1 - 1 - 1) (w.entries d.log) x (omega (arith, counted)))) in
      record {
        from_log = h.from_log;
        replays = ap (λ xs. replay_all xs new_store) back ∙ h.replays;
        agrees = h.agrees ∙ ap durable (sym same);
      }
  rolled_back d l l' n x m' (some f) h h' counted grown same q e =
      same_entries-IsDurable (record d { log = l; counter = n + 1; mem = m' }) l' (n + 1 - 1) h'
        (ap w.entries q ∙ w.truncate_failed l (n + 1 - 1 - 1) f e)

  -- The mutation is applied after its entry was written.
  applied-Served :
      (mut : Mutation) (d : DiskKv) (l : w.Log) (x : Bytes) (o : Option (MemoryKv × Option Error))
      → IsDurable d
      → d.closed ≡ false
      → d.counter ≡ suc (length (w.entries d.log))
      → w.entries l ≡ w.entries d.log ++ (x ∷ [])
      → ((t : MemoryKv) → replay_entry x t ≡ replayed (stored mut) (handle_mutation (stored mut) t))
      → handle_mutation mut d.mem ≡ o
      → Served mut d (applied (record d { log = l; counter = d.counter + 1 }) o)
  unfolding applied rollback_one
  applied-Served mut d l x none h z counted grown entry ran =
      crashed z (sym (handle_mutation-refines mut d.mem) ∙ ap seen ran) (
        ap (λ xs. replay_all xs new_store) grown
        ∙ (replay_all-append (w.entries d.log) x new_store
            ∙ (ap (λ r. r >>= replay_entry x) h.replays
                ∙ (entry h.from_log ∙ stored_panic mut d.mem h.from_log h.agrees ran))))
  applied-Served mut d l x (some (m', none)) h z counted grown entry ran =
      carried_out z (sym (handle_mutation-refines mut d.mem) ∙ ap seen ran)
        (extended mut d l (d.counter + 1) x m' none h grown entry ran)
  applied-Served mut d l x (some (m', some e)) h z counted grown entry ran =
      let stepped : spec_step mut (view d.mem) ≡ some (view m', some e) =
        sym (handle_mutation-refines mut d.mem) ∙ ap seen ran in
      carried_out z stepped (
        rolled_back d l (w.truncate_back (d.counter + 1 - 1 - 1) l).0 d.counter x m'
          (w.truncate_back (d.counter + 1 - 1 - 1) l).1 h
          (extended mut d l (d.counter + 1) x m' (some e) h grown entry ran) counted grown
          (step_error mut (view d.mem) (view m') e stepped).1 refl refl)

  written-Served :
      (mut : Mutation) (d : DiskKv) (x : Bytes) (l : w.Log) (o : Option Error)
      → IsDurable d
      → d.closed ≡ false
      → ((e : Error) → (w.write d.counter x d.log).1 ≡ some e → Unwritten mut d)
      → ((t : MemoryKv) → replay_entry x t ≡ replayed (stored mut) (handle_mutation (stored mut) t))
      → (w.write d.counter x d.log).0 ≡ l
      → (w.write d.counter x d.log).1 ≡ o
      → Served mut d (appended mut (written d (l, o)))
  unfolding appended written
  written-Served mut d x l none h z why entry q e =
      let wrote = w.write_done d.log d.counter x e in
      applied-Served mut d l x (handle_mutation mut d.mem) h z wrote.0
        (ap w.entries (sym q) ∙ wrote.1) entry refl
  written-Served mut d x l (some f) h z why entry q e =
      let kept = ap w.entries (sym q) ∙ w.write_failed d.log d.counter x f e in
      unlogged z (why f e) refl kept (same_entries-IsDurable d l d.counter h kept)

  framed-Served :
      (mut : Mutation) (d : DiskKv) (r : Result Bytes)
      → IsDurable d
      → d.closed ≡ false
      → ((e : Error) → r ≡ err e → Unwritten mut d)
      → ((x : Bytes) (e : Error)
          → r ≡ ok x
          → (w.write d.counter x d.log).1 ≡ some e
          → Unwritten mut d)
      → ((x : Bytes)
          → r ≡ ok x
          → (t : MemoryKv)
          → replay_entry x t ≡ replayed (stored mut) (handle_mutation (stored mut) t))
      → Served mut d (appended mut (framed d r))
  unfolding framed
  framed-Served mut d (err e) h z why unwritten entry =
      unfold appended in unlogged z (why e refl) refl refl h
  framed-Served mut d (ok x) h z why unwritten entry =
      written-Served mut d x (w.write d.counter x d.log).0 (w.write d.counter x d.log).1 h z
        (λ e q. unwritten x e refl q) (entry x refl) refl refl

  marshalled-Served :
      (mut : Mutation) (d : DiskKv) (r : Result Bytes)
      → IsDurable d
      → d.closed ≡ false
      → c.marshal mut ≡ r
      → Served mut d (appended mut (marshalled d r))
  unfolding marshalled
  marshalled-Served mut d (err e) h z q = unfold appended in unlogged z (no_mutation q) refl refl h
  marshalled-Served mut d (ok buf) h z q =
      framed-Served mut d
        (c.marshal_entry (record { version = 1; entry_data = buf; checksum = c.crc buf })) h z
        (λ e q'. no_entry q q') (λ x e q' failed. no_write q q' failed)
        (λ x q' t. replay_entry-marshal mut buf x t q q')

  handler_if-Served :
      (mut : Mutation) (d : DiskKv) (z : Bool)
      → d.closed ≡ z
      → IsDurable d
      → Served mut d (if z then (d, some err_closed) else serve mut d)
  unfolding serve append_log
  handler_if-Served mut d true e h = was_closed e
  handler_if-Served mut d false e h = marshalled-Served mut d (c.marshal mut) h e refl

  -- A mutation of a store whose log stands for it ends in one of these outcomes: the store is
  -- closed, the error says so and nothing changes; the store is open, the encoding of the
  -- mutation or of its entry or the write to the log fails, the error is the one of an invalid
  -- log, the memory and the entries of the log are as before and the log stands for the store;
  -- the store is open, the mutation does to the memory, as clients see it, and returns what it
  -- does to the abstract map, and the log stands for the store afterwards; or the store is open
  -- and the mutation panics, as it does on the abstract map, and the replay of the log panics as
  -- well.
  pub mutation_handler-Served :
      (mut : Mutation) (d : DiskKv) → IsDurable d → Served mut d (mutation_handler mut d)
  unfolding mutation_handler
  mutation_handler-Served mut d h = handler_if-Served mut d d.closed refl h
