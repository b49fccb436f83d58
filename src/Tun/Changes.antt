-- ===== src/Tun/Changes.antt =====
-- What a handler may do to a key: a relation of the entry before and after, which holds of a whole
-- handler once it holds of each of its calls.
use specter.Prelude.{
  ℕ, ◌≡◌, ◌≢◌, ◌⊎◌, ap, ◌∙◌, refl, sym, subst, false, List, [], ◌∷◌, Bytes, bytes_eq, bytes_beq_iff,
  ◌=?◌, All, inl, inr, Bool-cases,
}
use specter.Prelude.Int.{ℤ}
use specter.Errors.{Error, Result, ok, err}
use specter.Tun.Kv.{
  Entry, Keyspace, World, Network, Operation, M, Fate, answered, refused, lost, set_entry, outcome,
  call, then_, delete, put, put_at, release, released, under_lease, all,
}

pub bytes_differ : (j k : Bytes) → j ≢ k → (j =? k) ≡ false
bytes_differ j k h = elim (Bool-cases (j =? k)) [
  | inl e ↦ absurd (h ((bytes_beq_iff j k).0 e))
  | inr e ↦ e
]

pub set_entry_self : (key : Bytes) (e : Entry) (s : Keyspace) → set_entry key e s key ≡ e
set_entry_self key e s = rw ((bytes_beq_iff key key).1 refl)

abbrev pub Relation : Type 1
Relation = Bytes → Entry → Entry → Type 0

pub record IsFrame (Holds : Relation) : Type 0 where
  pub stays : (k : Bytes) (a : Entry) → Holds k a a
  pub joins : (k : Bytes) (a b c : Entry) → Holds k a b → Holds k b c → Holds k a c

module _ (Holds : Relation) where
  abbrev pub Kept : World → World → Type 0
  Kept w w' = (k : Bytes) → Holds k (w.keys k) (w'.keys k)

  abbrev pub Keeps : {A : Type 0} → M A → Type 0
  Keeps m = (w : World) → Kept w (m w).0

module _ {Holds : Relation} (frame : IsFrame Holds) where
  pub Kept-trans : (u v w : World) → Kept Holds u v → Kept Holds v w → Kept Holds u w
  Kept-trans u v w h g k = frame.joins k (u.keys k) (v.keys k) (w.keys k) (h k) (g k)

  set_entry_keeps :
      (key : Bytes) (w : World) (e : Entry) (j : Bytes)
      → Holds key (w.keys key) e
      → Holds j (w.keys j) (set_entry key e w.keys j)
  set_entry_keeps key w e j h = elim (Bool-cases (key =? j)) [
    | inl same ↦ rw same (subst (λ x. Holds x (w.keys x) e) ((bytes_beq_iff key j).0 same) h)
    | inr other ↦ rw other (frame.stays j (w.keys j))
  ]

  pub outcome_keeps :
      {A : Type 0} (fate : Fate) (key : Bytes) (w : World) (r : Entry × Result A)
      → Holds key (w.keys key) r.0
      → Kept Holds w (outcome fate key w r).0
  unfolding outcome
  outcome_keeps answered key w r h j = set_entry_keeps key w r.0 j h
  outcome_keeps (refused e) key w r h j = frame.stays j (w.keys j)
  outcome_keeps (lost e) key w r h j = set_entry_keeps key w r.0 j h

  pub then-Keeps :
      {A B : Type 0} (w : World) (r : World × Result A) (f : A → M B)
      → Kept Holds w r.0
      → ((a : A) → Keeps Holds (f a))
      → Kept Holds w (then_ r f).0
  unfolding then_
  then-Keeps w (w', err e) f h g = h
  then-Keeps w (w', ok a) f h g = Kept-trans w w' (f a w').0 h (g a w')

  pub all-Keeps :
      {A : Type 0} (jobs : List (M A)) (w : World)
      → All (Keeps Holds) jobs
      → Kept Holds w (all jobs w).0
  unfolding all
  all-Keeps [] w h = λ k. frame.stays k (w.keys k)
  all-Keeps (job ∷ jobs) w h =
      let w' = (job w).0 in Kept-trans w w' (all jobs w').0 (h.0 w) (all-Keeps jobs w' h.1)

  module _ ⦃n : Network⦄ where
    pub call-Keeps :
        {A : Type 0} (key : Bytes) (f : Operation A)
        → ((now : ℤ) (e : Entry) → Holds key e (f now e).0)
        → Keeps Holds (call key f)
    unfolding call
    call-Keeps key f h w = outcome_keeps (n.fate w.calls) key w _ (h (n.clock w.calls) (w.keys key))

    pub under_lease-Keeps :
        {A : Type 0} (lease : Bytes) (wrap : Error → Error) (body : M A) (w : World)
        (r : World × Result ℕ)
        → ((token : ℕ) → Keeps Holds (release lease token))
        → Keeps Holds body
        → Kept Holds w r.0
        → Kept Holds w (under_lease lease wrap body r).0
    unfolding under_lease released
    under_lease-Keeps lease wrap body w (w', err e) h g k = k
    under_lease-Keeps lease wrap body w (w', ok token) h g k =
        let w'' = (body w').0 in
        Kept-trans w w'' (release lease token w'').0 (Kept-trans w w' w'' k (g w')) (h token w'')

-- Nothing but the lease of one key changes.
abbrev pub LeaseOnly : Bytes → Relation
LeaseOnly lease k a b = (k ≡ lease) ⊎ (a ≡ b)

pub LeaseOnly-IsFrame : (lease : Bytes) → IsFrame (LeaseOnly lease)
LeaseOnly-IsFrame lease = record { stays = λ k a. inr refl; joins = LeaseOnly_joins lease }
  where
    LeaseOnly_joins :
        (lease k : Bytes) (a b c : Entry)
        → LeaseOnly lease k a b
        → LeaseOnly lease k b c
        → LeaseOnly lease k a c
    LeaseOnly_joins lease k a b c (inl e) h = inl e
    LeaseOnly_joins lease k a b c (inr e) h = subst (λ x. LeaseOnly lease k x c) (sym e) h

-- Nothing changes.
abbrev pub Same : Relation
Same k a b = a ≡ b

pub Same-IsFrame : IsFrame Same
Same-IsFrame = record { stays = λ k a. refl; joins = λ k a b c p q. p ∙ q }

-- What an answered call tells.
module _ ⦃n : Network⦄ where
  put_answered :
      (fate : Fate) (key value : Bytes) (now : ℤ) (w : World) (u : Unit {0})
      → let r = outcome fate key w (put_at value now (w.keys key)) in
        r.1 ≡ ok u → (r.0.keys key).simple ≡ value
  unfolding outcome
  put_answered answered key value now w u h =
      ap (λ (x : Entry). x.simple) (set_entry_self key (put_at value now (w.keys key)).0 w.keys)
  put_answered (refused f) key value now w u h = cc
  put_answered (lost f) key value now w u h = cc

  pub put_lem :
      (key value : Bytes) (w : World) (u : Unit {0})
      → (put key value w).1 ≡ ok u
      → ((put key value w).0.keys key).simple ≡ value
  unfolding call
  put_lem key value w u h = put_answered (n.fate w.calls) key value (n.clock w.calls) w u h

  pub delete_lem :
      (key : Bytes) (w : World) (u : Unit {0})
      → (delete key w).1 ≡ ok u
      → ((delete key w).0.keys key).simple ≡ []
  delete_lem key w u h = put_lem key [] w u h

  read_answered :
      {A : Type 0} (fate : Fate) (key : Bytes) (w : World) (e : Entry) (r : Result A) (a : A)
      → (outcome fate key w (e, r)).1 ≡ ok a
      → r ≡ ok a
  unfolding outcome
  read_answered answered key w e r a h = h
  read_answered (refused f) key w e r a h = cc
  read_answered (lost f) key w e r a h = cc

  pub read_lem :
      {A : Type 0} (key : Bytes) (answer : Entry → Result A) (w : World) (a : A)
      → (call key (λ now e. (e, answer e)) w).1 ≡ ok a
      → answer (w.keys key) ≡ ok a
  unfolding call
  read_lem key answer w a h =
      read_answered (n.fate w.calls) key w (w.keys key) (answer (w.keys key)) a h
