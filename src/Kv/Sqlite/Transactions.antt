-- ===== src/Kv/Sqlite/Transactions.antt =====
-- kv/sqlite3/sqlutil.go: how a transaction ends, from how its statements do.
use specter.Prelude.{ℕ, ◌≡◌, ◌⊎◌, inl, inr, subst, sym, refl, Option, none, some}
use specter.Errors.{Error, Result, ok, err}
use specter.Kv.Sqlite.Schema.{Tables}
use specter.Kv.Sqlite.{
  Driver, Statement, begin, commit, Tx, then_, answered, exec, committed, ended, begun,
  with_write_tx, ◌>>=◌, affected,
}

module _ ⦃c : Driver⦄ where
  -- A part of a transaction reaches its goal, or refuses with an error that it may give, or stops
  -- because the database has failed at a statement.
  pub data Ran {A : Type 0} (May : Error → Type 0) (Goal : Tables → A → Type 0)
      : Result (Tables × A) → Type 0 where
    ran : {d : Tables} {a : A} → Goal d a → Ran May Goal (ok (d, a))
    refused : {e : Error} → May e → Ran May Goal (err e)
    broken : {e : Error} (s : Statement) (d : Tables) → c.fails s d ≡ some e → Ran May Goal (err e)

  -- The same of a whole transaction, with the tables unchanged unless it reaches its goal.
  pub data Outcome {A : Type 0} (May : Error → Type 0) (Goal : Tables → A → Type 0) (d : Tables)
      : Tables × Result A → Type 0 where
    done : {d' : Tables} {a : A} → Goal d' a → Outcome May Goal d (d', ok a)
    denied : {e : Error} → May e → Outcome May Goal d (d, err e)
    failed :
        {e : Error} (s : Statement) (at : Tables)
        → c.fails s at ≡ some e
        → Outcome May Goal d (d, err e)

  module _ {A : Type 0} (May : Error → Type 0) where
    answered-Ran :
        (Goal : Tables → A → Type 0) (s : Statement) (d : Tables) (r : Tables × A)
        (o : Option Error)
        → c.fails s d ≡ o
        → Goal r.0 r.1
        → Ran May Goal (answered o r)
    unfolding answered
    answered-Ran Goal s d r none e g = ran g
    answered-Ran Goal s d r (some x) e g = broken s d e

    pub exec-Ran :
        (Goal : Tables → A → Type 0) (s : Statement) (run : Tables → Tables × A) (d : Tables)
        → Goal (run d).0 (run d).1
        → Ran May Goal (exec s run d)
    unfolding exec
    exec-Ran Goal s run d g = answered-Ran Goal s d (run d) (c.fails s d) refl g

    committed-Outcome :
        (Goal : Tables → A → Type 0) (d d' : Tables) (a : A) (o : Option Error)
        → c.fails commit d' ≡ o
        → Goal d' a
        → Outcome May Goal d (committed d (d', a) o)
    unfolding committed
    committed-Outcome Goal d d' a none e g = done g
    committed-Outcome Goal d d' a (some x) e g = failed commit d' e

    ended-Outcome :
        (Goal : Tables → A → Type 0) (d : Tables) (r : Result (Tables × A))
        → Ran May Goal r
        → Outcome May Goal d (ended d r)
    unfolding ended
    ended-Outcome Goal d (ok (d', a)) (ran g) =
        committed-Outcome Goal d d' a (c.fails commit d') refl g
    ended-Outcome Goal d (err e) (refused m) = denied m
    ended-Outcome Goal d (err e) (broken s at f) = failed s at f

    begun-Outcome :
        (Goal : Tables → A → Type 0) (tx : Tx A) (d : Tables) (o : Option Error)
        → c.fails begin d ≡ o
        → Ran May Goal (tx d)
        → Outcome May Goal d (begun tx d o)
    unfolding begun
    begun-Outcome Goal tx d none e r = ended-Outcome Goal d (tx d) r
    begun-Outcome Goal tx d (some x) e r = failed begin d e

    pub with_write_tx-Outcome :
        (Goal : Tables → A → Type 0) (tx : Tx A) (d : Tables)
        → Ran May Goal (tx d)
        → Outcome May Goal d (with_write_tx tx d)
    unfolding with_write_tx
    with_write_tx-Outcome Goal tx d r = begun-Outcome Goal tx d (c.fails begin d) refl r

  pub then-Ran :
      {A B : Type 0} (May : Error → Type 0) (Goal : Tables → A → Type 0)
      (Goal' : Tables → B → Type 0) (r : Result (Tables × A)) (f : A → Tx B)
      → Ran May Goal r
      → ((d : Tables) (a : A) → Goal d a → Ran May Goal' (f a d))
      → Ran May Goal' (then_ r f)
  unfolding then_
  then-Ran May Goal Goal' (ok (d, a)) f (ran g) k = k d a g
  then-Ran May Goal Goal' (err e) f (refused m) k = refused m
  then-Ran May Goal Goal' (err e) f (broken s d x) k = broken s d x

  -- A statement whose rows are counted: none means the failure, and one that the transaction goes on.
  pub affected-Ran :
      (May : Error → Type 0) (Goal : Tables → Unit {0} → Type 0) (s : Statement)
      (run : Tables → Tables × ℕ) (d : Tables) (failure : Error) (rest : Tx (Unit {0}))
      → (((run d).1 ≡ 0) × May failure) ⊎ (((run d).1 ≡ 1) × Ran May Goal (rest (run d).0))
      → Ran May Goal ((exec s run >>= affected failure rest) d)
  affected-Ran May Goal s run d failure rest cases =
      then-Ran May (λ y n. (y ≡ (run d).0) × (n ≡ (run d).1)) Goal _ _
        (exec-Ran May (λ y n. (y ≡ (run d).0) × (n ≡ (run d).1)) s run d (refl, refl))
        (λ y n e.
          subst (λ z. Ran May Goal (affected failure rest z y)) (sym e.1)
            (subst (λ z. Ran May Goal (affected failure rest (run d).1 z)) (sym e.0) by_count))
    where
      by_count : Ran May Goal (affected failure rest (run d).1 (run d).0)
      by_count = elim cases [
        | inl (no_row, may) ↦
            subst (λ z. Ran May Goal (affected failure rest z (run d).0)) (sym no_row)
              (unfold affected in refused may)
        | inr (a_row, goes_on) ↦
            subst (λ z. Ran May Goal (affected failure rest z (run d).0)) (sym a_row)
              (unfold affected in goes_on)
      ]
