-- ===== src/Kv/Aof/Runs.antt =====
-- kv/aof: any sequence of operations, and a start afterwards.
use mathlib.Core.Path.{fun_ext}
use specter.Prelude.{
  ℕ, ◌+◌, ◌≤◌, ◌≡◌, ◌≢◌, refl, ap, sym, subst, ◌∙◌, true, false, ◌&&◌, Option, none, some, inl, inr,
  Bytes, bytes_eq, bytes_beq, bytes_beq_iff, Bool-cases, arith,
}
use specter.Prelude.Int.{ℤ, pos}
use specter.Errors.{Error, Result, ok, err, panics, ◌>>=◌}
use specter.Kv.Spec.{Mutation, Cells, update, spec_step}
use specter.Kv.Lease.{max_int64}
use specter.Kv.Memory.{Backend, MemoryKv, new_store}
use specter.Kv.Memory.View.{view}
use specter.Kv.Memory.Leases as Leases
use specter.Kv.Memory.Exclusion.{Swapped, taken, lost, swap_lease-Swapped}
use specter.Kv.Memory.Outcomes.{
  Acquired, granted, denied, acquire-Acquired, Renewed, extended, expired, renew-Renewed,
}
use specter.Kv.Aof.{
  Codec, Wal, is_append, is_conflict, DiskKv, in_context, indexed, new, mutation_handler, stop,
  acquire, renew, release,
}
use specter.Kv.Aof.Durable.{durable, durable_cell, step_error}
use specter.Kv.Aof.Replay.{after_0, replay_all, LoopRan, all_read, unread, replay_loop-LoopRan}
use specter.Kv.Aof.Recovery.{
  IsDurable, Served, was_closed, unlogged, carried_out, crashed, mutation_handler-Served,
}
use specter.Kv.Aof.Reopening.{Reopened, new-Reopened}

-- A lease is no part of what the log keeps.
durable-lease :
    (k : Bytes) (n : ℕ) (s : Cells) → durable (update k (record (s k) { lease = n }) s) ≡ durable s
durable-lease k n s = fun_ext λ j. elim (Bool-cases (bytes_beq k j)) [
  | inl e ↦ rw e (ap (λ i. durable_cell (s i)) ((bytes_beq_iff k j).0 e))
  | inr e ↦ rw e refl
]

module _ ⦃b : Backend⦄ ⦃c : Codec⦄ ⦃w : Wal⦄ where
  Acquired-durable :
      (k : Bytes) (now : ℕ) (m : MemoryKv) (r : MemoryKv × Result ℕ)
      → Acquired k now m r
      → durable (view r.0) ≡ durable (view m)
  Acquired-durable k now m _ (granted f s h e) = ap durable e ∙ durable-lease k _ (view m)
  Acquired-durable k now m _ (denied e) = ap durable e

  Renewed-durable :
      (k : Bytes) (now prev : ℕ) (m : MemoryKv) (r : MemoryKv × Result ℕ)
      → Renewed k now prev m r
      → durable (view r.0) ≡ durable (view m)
  Renewed-durable k now prev m _ (extended q f s h e) = ap durable e ∙ durable-lease k _ (view m)
  Renewed-durable k now prev m _ (expired e) = ap durable e

  Swapped-durable :
      (k : Bytes) (curr nxt : ℕ) (failure : Error) (m : MemoryKv) (r : MemoryKv × Result ℕ)
      → Swapped k curr nxt failure m r
      → durable (view r.0) ≡ durable (view m)
  Swapped-durable k curr nxt failure m _ (taken q e) = ap durable e ∙ durable-lease k nxt (view m)
  Swapped-durable k curr nxt failure m _ (lost q e) = ap durable e

  new_mem-IsDurable :
      (d : DiskKv) (m : MemoryKv)
      → IsDurable d
      → durable (view m) ≡ durable (view d.mem)
      → IsDurable (record d { mem = m })
  new_mem-IsDurable d m h e = record {
    from_log = h.from_log;
    replays = h.replays;
    agrees = h.agrees ∙ sym e;
  }

  -- A step of a store: a mutation that does not panic, a lease operation, or Stop.
  pub data Step (d : DiskKv) : DiskKv → Type 0 where
    mutated :
        (mut : Mutation) → spec_step mut (view d.mem) ≢ none → Step d (mutation_handler mut d).0
    acquired :
        (k : Bytes) (ttl : ℤ) (now : ℕ) → now ≤ max_int64 → Step d (acquire k ttl (pos now) d).0
    renewed :
        (k : Bytes) (ttl : ℤ) (now prev : ℕ)
        → now ≤ max_int64
        → Step d (renew k ttl (pos now) prev d).0
    released : (k : Bytes) (token : ℕ) → Step d (release k token d).0
    stopped : Step d (stop d)

  pub data Steps (d : DiskKv) : DiskKv → Type 0 where
    no_step : Steps d d
    then_step : {d' d'' : DiskKv} → Steps d d' → Step d' d'' → Steps d d''

  Served-IsDurable :
      (mut : Mutation) (d : DiskKv) (r : DiskKv × Option Error)
      → IsDurable d
      → spec_step mut (view d.mem) ≢ none
      → Served mut d r
      → IsDurable r.0
  Served-IsDurable mut d _ h fine (was_closed e) = h
  Served-IsDurable mut d _ h fine (unlogged z why e kept h') = h'
  Served-IsDurable mut d _ h fine (carried_out z e h') = h'
  Served-IsDurable mut d _ h fine (crashed z e p) = absurd (fine e)

  Step-IsDurable : (d d' : DiskKv) → Step d d' → IsDurable d → IsDurable d'
  unfolding acquire renew release Leases.release stop
  Step-IsDurable d _ (mutated mut fine) h =
      Served-IsDurable mut d (mutation_handler mut d) h fine (mutation_handler-Served mut d h)
  Step-IsDurable d _ (acquired k ttl now le) h =
      new_mem-IsDurable d _ h (Acquired-durable k now d.mem _ (acquire-Acquired k ttl now d.mem le))
  Step-IsDurable d _ (renewed k ttl now prev le) h =
      new_mem-IsDurable d _ h
        (Renewed-durable k now prev d.mem _ (renew-Renewed k ttl now prev d.mem le))
  Step-IsDurable d _ (released k token) h =
      new_mem-IsDurable d _ h
        (Swapped-durable k token 0 _ d.mem _ (swap_lease-Swapped k token 0 _ d.mem))
  Step-IsDurable d _ stopped h = record {
    from_log = h.from_log;
    replays = h.replays;
    agrees = h.agrees;
  }

  pub Steps-IsDurable : (d d' : DiskKv) → Steps d d' → IsDurable d → IsDurable d'
  Steps-IsDurable d _ no_step h = h
  Steps-IsDurable d _ (then_step {d'} {d''} before s) h =
      Step-IsDurable d' d'' s (Steps-IsDurable d d' before h)

  -- From a store whose log stands for it, any run of mutations that do not panic, of Acquire,
  -- Renew and Release by int64 clock times, and of Stop leads to a store from whose log New
  -- either fails with an error of the log package or opens a store that agrees in the children
  -- and, but for the difference between an empty value and none, in the value of every key,
  -- whose counter is past the last index, which is not closed, and which the log again stands
  -- for.
  pub run-Reopened : (d d' : DiskKv) → IsDurable d → Steps d d' → Reopened d' (new d'.log)
  run-Reopened d d' h steps = new-Reopened d' (Steps-IsDurable d d' steps h)

  panicked :
      (mut : Mutation) (d : DiskKv) (r : DiskKv × Option Error)
      → Served mut d r
      → r.1 ≡ some panics
      → replay_all (w.entries r.0.log) new_store ≡ err panics
  panicked mut d _ (was_closed q) e = absurd cc
  panicked mut d _ (unlogged z why q kept h) e = absurd cc
  panicked mut d _ (carried_out {d'} z q h) e = absurd (
      no_panic mut
        (step_error mut (view d.mem) (view d'.mem) panics
          (q ∙ ap (λ x. some (view d'.mem, x)) e)).0)
    where
      no_panic : (m : Mutation) → is_append m && is_conflict panics ≡ true → ⊥
      no_panic m h = unfold is_conflict in ground (arith, h)
  panicked mut d _ (crashed z q p) e = p

  unopened :
      (l : w.Log) (n : ℕ) (e : Error) (right r : Result MemoryKv) (d : DiskKv)
      → right ≡ err e
      → LoopRan l right r
      → (r >>= λ m. ok (record { log = l; counter = n + 1; mem = m; closed = false })) ≢ ok d
  unfolding in_context
  unopened l n e (err x) _ d q all_read = λ h. cc
  unopened l n e (ok m) _ d q all_read = absurd cc
  unopened l n e right _ d q (unread i x) = λ h. cc

  indexed_unopened :
      (l : w.Log) (e : Error) (r : Result ℕ) (d : DiskKv)
      → replay_all (w.entries l) new_store ≡ err e
      → w.last_index l ≡ r
      → indexed l r ≢ ok d
  unfolding indexed in_context
  indexed_unopened l e (err x) d q h = λ p. cc
  indexed_unopened l e (ok n) d q h =
      unopened l n e _ _ d (ap (λ xs. replay_all xs new_store) (after_0 (w.entries l)) ∙ q)
        (replay_loop-LoopRan n 0 l new_store (omega (arith, w.last_index_lem l n h)))

  -- If a mutation of a store whose log stands for it panics, no later New on the log that it
  -- left opens a store.
  pub panic_persists :
      (mut : Mutation) (d d' : DiskKv)
      → IsDurable d
      → mutation_handler mut d ≡ (d', some panics)
      → (d'' : DiskKv) → new d'.log ≢ ok d''
  unfolding new
  panic_persists mut d d' h e d'' =
      indexed_unopened d'.log panics (w.last_index d'.log) d''
        (subst (λ r. r.1 ≡ some panics → replay_all (w.entries r.0.log) new_store ≡ err panics) e
          (panicked mut d (mutation_handler mut d) (mutation_handler-Served mut d h)) refl)
        refl
