-- ===== src/Kv/Sqlite/Handover.antt =====
-- kv/sqlite3/provider.go: Export at one store, Import at another and RemoveKeys at the first.
use mathlib.Core.Path.{fun_ext}
use specter.Prelude.{
  ◌^◌, ◌<◌, ◌≡◌, refl, ap, sym, subst, ◌∙◌, true, false, Option, some, List, [], ◌∷◌, map, Bytes,
  bytes_eq, bytes_beq_iff, ◌==◌, nat_eq, if◌then◌else◌, length, arith,
}
use specter.Errors.{Error, Result}
use specter.Containers.{find, member}
use specter.Kv.Spec.{Cells, Transfer, update}
use specter.Kv.Memory.Handover.{Ready, Ready-update}
use specter.Kv.Sqlite.Schema.{Tables}
use specter.Kv.Sqlite.{Driver}
use specter.Kv.Sqlite.Provider.{import, export, remove_keys}
use specter.Kv.Sqlite.Transactions.{Outcome, done, denied, failed}
use specter.Kv.Sqlite.Tracking.{IsTracked}
use specter.Kv.Sqlite.View.{view, token_of, Shows}
use specter.Kv.Sqlite.Refinement.{Never}
use specter.Kv.Sqlite.Removal.{emptied, remove_keys-Outcome}
use specter.Kv.Sqlite.Transfer.{
  TokenWords, has_nil, merged_all, ImportRefusal, mismatch, nil_value, import-Outcome, exported,
  export-Outcome, live, merged-exported, token_or_0_lem,
}

-- The values that another store hands in: none is nil.
abbrev pub sent : List Transfer → List (Option Transfer)
sent [] = []
sent (t ∷ ts) = some t ∷ sent ts

has_nil-sent : (ts : List Transfer) → has_nil (sent ts) ≡ false
has_nil-sent [] = refl
has_nil-sent (t ∷ ts) = has_nil-sent ts

length-sent-map :
    (f : Bytes → Transfer) (keys : List Bytes) → (length keys == length (sent (map f keys))) ≡ true
length-sent-map f [] = refl
length-sent-map f (k ∷ keys) = ground (arith, length-sent-map f keys)

-- The first map's cells under the keys, and the second map's elsewhere.
abbrev pub taken : List Bytes → Cells → Cells → Cells
taken keys s t j = if member j keys then s j else t j

module _ ⦃c : Driver⦄ where
  TokenWords-exported :
      (keys : List Bytes) (d : Tables)
      → ((k : Bytes) → token_of (find k d.lease_entries) < 2 ^ 64)
      → TokenWords (sent (map (exported d) keys))
  TokenWords-exported [] d w = tt
  TokenWords-exported (k ∷ keys) d w = (
    subst (λ n. n < 2 ^ 64) (sym (token_or_0_lem (find k d.lease_entries))) (w k),
    TokenWords-exported keys d w,
  )

  merged_all-exported :
      (keys : List Bytes) (d : Tables) (t : Cells)
      → ((k : Bytes) → member k keys ≡ true → live d k ≡ true)
      → Ready (view d) t keys
      → merged_all keys (sent (map (exported d) keys)) t ≡ taken keys (view d) t
  merged_all-exported [] d t alive h = refl
  merged_all-exported (k ∷ keys) d t alive h =
      let first : member k (k ∷ keys) ≡ true = ground (arith, bytes_beq_iff k k) in
      rw (merged-exported d k (t k) (alive k first) (h k first)) (
        merged_all-exported keys d (update k (view d k) t) (λ j m. alive j (ground (arith, m)))
          (Ready-update k keys (view d) t h)
        ∙ fun_ext λ j. ground (arith, ap (view d) {x = k} {y = j}, bytes_beq_iff k j))

  sent_once :
      (keys : List Bytes) (f : Bytes → Transfer) (e : Error)
      → ImportRefusal keys (sent (map f keys)) e
      → ⊥
  sent_once keys f _ (mismatch h) = ground (arith, h, length-sent-map f keys)
  sent_once keys f _ (nil_value h) = ground (arith, h, has_nil-sent (map f keys))

  Outcome-map :
      {A : Type 0} (May Might : Error → Type 0) (P Q : Tables → A → Type 0) (d : Tables)
      (r : Tables × Result A)
      → ((e : Error) → May e → Might e)
      → ((y : Tables) (a : A) → P y a → Q y a)
      → Outcome May P d r
      → Outcome Might Q d r
  Outcome-map May Might P Q d _ f g (done p) = done (g _ _ p)
  Outcome-map May Might P Q d _ f g (denied m) = denied (f _ m)
  Outcome-map May Might P Q d _ f g (failed s at e) = failed s at e

  -- Where the trackers of two SQLite stores are right, the giver's tokens have 64 bits, each of
  -- the keys has a value, a child or a token at the giver, and the receiver has nothing under
  -- the keys or already the same: Export leaves the giver unchanged, and unless the database
  -- fails, Import of what it gave leads the receiver to show the giver's cell for each of the
  -- keys and its own for each other key, and RemoveKeys leads the giver to show nothing for the
  -- keys and its own cell for each other key, with the trackers right in both.
  pub sqlite_handover :
      (keys : List Bytes) (giver receiver : Tables)
      → IsTracked giver
      → IsTracked receiver
      → ((k : Bytes) → token_of (find k giver.lease_entries) < 2 ^ 64)
      → ((k : Bytes) → member k keys ≡ true → live giver k ≡ true)
      → Ready (view giver) (view receiver) keys
      → Outcome Never
          (λ y values.
            (y ≡ giver)
            × Outcome Never
                (Shows (taken keys (view giver) (view receiver)))
                receiver
                (import keys (sent values) receiver))
          giver
          (export keys giver)
        × Outcome Never (Shows (emptied keys (view giver))) giver (remove_keys keys giver)
  sqlite_handover keys m n tracked tracked' words alive ready =
      let arrives =
        Outcome-map (ImportRefusal keys (sent (map (exported m) keys))) Never _
          (Shows (taken keys (view m) (view n))) n _ (sent_once keys (exported m))
          (λ y u p. (p.1.0, p.1.1 ∙ merged_all-exported keys m (view n) alive ready))
          (import-Outcome keys (sent (map (exported m) keys)) n (TokenWords-exported keys m words)
            tracked') in
      (
        Outcome-map Never Never _ _ m _ (λ e x. x)
            (λ y values p. (
              p.0,
              subst
                  (λ vs.
                    Outcome Never (Shows (taken keys (view m) (view n))) n
                      (import keys (sent vs) n))
                  (sym p.1) arrives,
            ))
            (export-Outcome keys m),
        remove_keys-Outcome keys m tracked,
      )
