-- ===== src/Kv/Aof/Replay.antt =====
-- kv/aof/log.go: what replayLogs makes of the entries, one after the other.
use specter.Prelude.{
  ℕ, zero, suc, ◌+◌, ◌≡◌, ◌⊎◌, refl, ap, subst, ◌∙◌, some, inl, inr, List, [], ◌∷◌, ◌++◌, Bytes,
  ==_iff, nat_eq, length, get_elem?, arith,
}
use specter.Errors.{Error, Result, ok, err, ◌>>=◌}
use specter.Kv.Spec.{Mutation}
use specter.Kv.Memory.{Backend, MemoryKv}
use specter.Kv.Memory.Refinement.{handle_mutation}
use specter.Kv.Sqlite.Provider.{batch, after}
use specter.Kv.Aof.{
  Codec, Wal, stored, decode_entry, replayed, in_context, replay_entry, replay_loop,
}

get_elem-after :
    (i : ℕ) (x : Bytes) (xs : List Bytes)
    → get_elem? xs i ≡ some x
    → after i xs ≡ x ∷ after (suc i) xs
unfolding after
get_elem-after i x [] h = absurd cc
get_elem-after zero x (y ∷ []) h = ground (arith, h)
get_elem-after zero x (y ∷ (z ∷ xs)) h = ground (arith, h)
get_elem-after (suc i) x (y ∷ xs) h = get_elem-after i x xs h

after-length : (xs : List Bytes) → after (length xs) xs ≡ []
unfolding after
after-length [] = refl
after-length (x ∷ xs) = after-length xs

batch-length : (xs : List Bytes) (x : Bytes) → batch (length xs) (xs ++ (x ∷ [])) ≡ xs
unfolding batch
batch-length [] x = refl
batch-length (y ∷ ys) x = ap (λ t. y ∷ t) (batch-length ys x)

pub after_0 : (xs : List Bytes) → after 0 xs ≡ xs
unfolding after
after_0 [] = refl
after_0 (x ∷ xs) = refl

pub batch_all :
    (n : ℕ) (xs : List Bytes) (x : Bytes) → n ≡ length xs → batch n (xs ++ (x ∷ [])) ≡ xs
batch_all n xs x e = ap (λ k. batch k (xs ++ (x ∷ []))) e ∙ batch-length xs x

module _ ⦃b : Backend⦄ ⦃c : Codec⦄ ⦃w : Wal⦄ where
  -- All entries, in order.
  unfoldable pub replay_all : List Bytes → MemoryKv → Result MemoryKv
  replay_all [] m = ok m
  replay_all (x ∷ xs) m = replay_entry x m >>= replay_all xs

  bind-append :
      (r : Result MemoryKv) (xs : List Bytes) (x : Bytes)
      → ((m : MemoryKv) → replay_all (xs ++ (x ∷ [])) m ≡ (replay_all xs m >>= replay_entry x))
      → (r >>= replay_all (xs ++ (x ∷ []))) ≡ ((r >>= replay_all xs) >>= replay_entry x)
  bind-append (err e) xs x h = refl
  bind-append (ok m) xs x h = h m

  bind_ok : (r : Result MemoryKv) → (r >>= λ m. ok m) ≡ r
  bind_ok (err e) = refl
  bind_ok (ok m) = refl

  pub replay_all-append :
      (xs : List Bytes) (x : Bytes) (m : MemoryKv)
      → replay_all (xs ++ (x ∷ [])) m ≡ (replay_all xs m >>= replay_entry x)
  unfolding replay_all
  replay_all-append [] x m = bind_ok (replay_entry x m)
  replay_all-append (y ∷ ys) x m =
      bind-append (replay_entry y m) ys x (λ m'. replay_all-append ys x m')

  -- An entry that append_log made.
  pub replay_entry-marshal :
      (mut : Mutation) (buf x : Bytes) (m : MemoryKv)
      → c.marshal mut ≡ ok buf
      → c.marshal_entry (record { version = 1; entry_data = buf; checksum = c.crc buf }) ≡ ok x
      → replay_entry x m ≡ replayed (stored mut) (handle_mutation (stored mut) m)
  unfolding replay_entry decode_entry
  replay_entry-marshal mut buf x m e h =
      rw
        (
          replay_entry,
          decode_entry,
          c.unmarshal_entry-marshal_entry _ x h,
          (==_iff (c.crc buf) (c.crc buf)).1 refl,
          c.unmarshal-marshal mut buf e,
        )
        refl

  -- The loop reads the entries from an index on, unless a read fails.
  pub data LoopRan (l : w.Log) (right : Result MemoryKv) : Result MemoryKv → Type 0 where
    all_read : LoopRan l right right
    unread : {e : Error} (i : ℕ) → w.read i l ≡ err e → LoopRan l right (in_context e)

  LoopRan-bind :
      (l : w.Log) (r : Result MemoryKv) (f g : MemoryKv → Result MemoryKv)
      → ((m : MemoryKv) → LoopRan l (g m) (f m))
      → LoopRan l (r >>= g) (r >>= f)
  LoopRan-bind l (err e) f g h = all_read
  LoopRan-bind l (ok m) f g h = h m

  Result-cases : {A : Type 0} (r : Result A) → ((e : Error) × (r ≡ err e)) ⊎ ((a : A) × (r ≡ ok a))
  Result-cases (err e) = inl (e, refl)
  Result-cases (ok a) = inr (a, refl)

  pub replay_loop-LoopRan :
      (n j : ℕ) (l : w.Log) (m : MemoryKv)
      → j + n ≡ length (w.entries l)
      → LoopRan l (replay_all (after j (w.entries l)) m) (replay_loop n (suc j) l m)
  unfolding replay_loop replay_all
  replay_loop-LoopRan zero j l m h =
      subst (λ k. LoopRan l (replay_all (after k (w.entries l)) m) (ok m))
        {x = length (w.entries l)} (omega (arith, h)) (rw (after-length (w.entries l)) all_read)
  replay_loop-LoopRan (suc n) j l m h = elim (Result-cases (w.read (suc j) l)) [
    | inl (e, q) ↦ rw (replay_loop, q) (unread (suc j) q)
    | inr (x, q) ↦
        rw (replay_loop, q, get_elem-after j x (w.entries l) (w.read_lem l j x q))
          (LoopRan-bind l (replay_entry x m) _ _
            (λ m'. replay_loop-LoopRan n (suc j) l m' (omega (arith, h))))
  ]
