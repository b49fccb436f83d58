-- ===== src/Kv/Aof/Reopening.antt =====
-- kv/aof/{kv,log}.go: a start from the log of a store.
use specter.Prelude.{ℕ, suc, ◌+◌, ◌≡◌, refl, ap, sym, ◌∙◌, false, length, arith}
use specter.Errors.{Error, Result, ok, err, ◌>>=◌}
use specter.Kv.Memory.{Backend, MemoryKv, new_store}
use specter.Kv.Memory.View.{view}
use specter.Kv.Aof.{Codec, Wal, DiskKv, in_context, indexed, new}
use specter.Kv.Aof.Durable.{durable}
use specter.Kv.Aof.Replay.{after_0, replay_all, LoopRan, all_read, unread, replay_loop-LoopRan}
use specter.Kv.Aof.Recovery.{IsDurable}

module _ ⦃b : Backend⦄ ⦃c : Codec⦄ ⦃w : Wal⦄ where
  -- How a start from a log ends: with an error of the log package, or with the store.
  pub data Reopened (d : DiskKv) : Result DiskKv → Type 0 where
    reopened :
        {d' : DiskKv}
        → durable (view d'.mem) ≡ durable (view d.mem)
        → d'.log ≡ d.log
        → d'.counter ≡ suc (length (w.entries d.log))
        → d'.closed ≡ false
        → IsDurable d'
        → Reopened d (ok d')
    no_index : {e : Error} → w.last_index d.log ≡ err e → Reopened d (in_context e)
    no_entry : {e : Error} (i : ℕ) → w.read i d.log ≡ err e → Reopened d (in_context e)

  held_store : Result MemoryKv → MemoryKv
  held_store (err e) = new_store
  held_store (ok m) = m

  looped-Reopened :
      (d : DiskKv) (n : ℕ) (right r : Result MemoryKv) (h : IsDurable d)
      → n ≡ length (w.entries d.log)
      → right ≡ ok h.from_log
      → LoopRan d.log right r
      → Reopened d
          (r >>= λ m. ok (record { log = d.log; counter = n + 1; mem = m; closed = false }))
  unfolding held_store in_context
  looped-Reopened d n (err x) _ h counted q all_read = absurd cc
  looped-Reopened d n (ok m) _ h counted q all_read =
      let same : durable (view m) ≡ durable (view h.from_log) =
        ap (λ r. durable (view (held_store r))) q in
      reopened (same ∙ h.agrees) refl (omega (arith, counted)) refl
        (record { from_log = h.from_log; replays = h.replays; agrees = sym same })
  looped-Reopened d n right _ h counted q (unread i e) = no_entry i e

  indexed-Reopened :
      (d : DiskKv) (r : Result ℕ)
      → IsDurable d
      → w.last_index d.log ≡ r
      → Reopened d (indexed d.log r)
  unfolding indexed
  indexed-Reopened d (err e) h q = no_index q
  indexed-Reopened d (ok n) h q =
      let counted = w.last_index_lem d.log n q in
      looped-Reopened d n _ _ h counted
        (ap (λ xs. replay_all xs new_store) (after_0 (w.entries d.log)) ∙ h.replays)
        (replay_loop-LoopRan n 0 d.log new_store (omega (arith, counted)))

  -- New on the log of a store.
  pub new-Reopened : (d : DiskKv) → IsDurable d → Reopened d (new d.log)
  unfolding new
  new-Reopened d h = indexed-Reopened d (w.last_index d.log) h refl
