-- ===== src/Config/Writes.antt =====
-- config/store.go: how a save ends.
use specter.Prelude.{
  ◌≡◌, refl, ap, subst, ◌∙◌, ◌⊎◌, Bool, true, false, Option, none, some, inl, inr, if◌then◌else◌,
}
use specter.Errors.{Error, Result, ok, err}
use specter.Config.{Documents, Encoding, err_durability_uncertain, read_error}
use specter.Config.Store.{
  Fate, Commit, durable, unsure, failed_or, abandoned, committed, reread, changed_by, first_read,
  begun, connected, write,
}

-- The step of the database that fails, and the error that write gives for it.
pub data Failed (fate : Fate) : Error → Type 0 where
  conn_failed : {e : Error} → fate.conn ≡ some e → Failed fate e
  begin_failed : {e : Error} → fate.begin ≡ some e → Failed fate err_durability_uncertain
  read_failed : {e : Error} → fate.read ≡ some e → Failed fate e
  select_failed : {e : Error} → fate.select ≡ some e → Failed fate e
  upsert_failed : {e : Error} → fate.upsert ≡ some e → Failed fate e
  reread_failed : {e : Error} → fate.reread ≡ some e → Failed fate e
  rollback_failed : fate.no_rollback ≡ true → Failed fate err_durability_uncertain
  commit_failed : fate.commit ≡ unsure false → Failed fate err_durability_uncertain

pub failed_or-some :
    (o found : Option Error) (e : Error)
    → failed_or o found ≡ some e
    → (o ≡ some e) ⊎ (found ≡ some e)
unfolding failed_or
failed_or-some (some f) found e h = inl h
failed_or-some none found e h = inr h

pub failed_or-none : (o found : Option Error) → failed_or o found ≡ none → found ≡ none
unfolding failed_or
failed_or-none (some f) found h = cc
failed_or-none none found h = h

module _ ⦃c : Encoding⦄ {A : Type 0} (Good : A → Type 0) (Refuses : Error → Type 0) (fate : Fate)
    (old new : Documents) where
  -- Why a save that is to lead from `old` to `new` is refused: a step of the database fails, the
  -- stored records are not valid or too large, those after a change that is allowed would be, or the
  -- change itself is refused.
  pub data Why (e : Error) : Type 0 where
    database : Failed fate e → Why e
    unsound : read_error old ≡ some e → Why e
    overfull : {a : A} → Good a → read_error new ≡ some e → Why e
    rejected : read_error old ≡ none → Refuses e → Why e

  -- The outcomes: `new` is there and valid if the call succeeds; otherwise the table is as before, or
  -- Commit has failed but kept the change, and the error says that the outcome is uncertain.
  pub data Written : Documents × Result A → Type 0 where
    saved : {a : A} → Good a → read_error old ≡ none → read_error new ≡ none → Written (new, ok a)
    refused : {e : Error} → Why e → Written (old, err e)
    uncertain :
        {a : A}
        → Good a
        → read_error old ≡ none
        → read_error new ≡ none
        → fate.commit ≡ unsure true
        → Written (new, err err_durability_uncertain)

  rolled_back :
      (r : Result A) (b : Bool)
      → fate.no_rollback ≡ b
      → Written (old, r)
      → Written (old, if b then err err_durability_uncertain else r)
  rolled_back r true q h = refused (database (rollback_failed q))
  rolled_back r false q h = h

  pub abandoned-Written : (e : Error) → Why e → Written (abandoned fate old (err e))
  unfolding abandoned
  abandoned-Written e why = rolled_back (err e) fate.no_rollback refl (refused why)

  module _ (sound : read_error old ≡ none) where
    unchanged-Written : (a : A) → Good a → new ≡ old → Written (abandoned fate old (ok a))
    unfolding abandoned
    unchanged-Written a g e =
        rolled_back (ok a) fate.no_rollback refl
          (subst (λ d. Written (d, ok a)) e (saved g sound (ap read_error e ∙ sound)))

    committed-Written :
        (a : A) (commit : Commit)
        → fate.commit ≡ commit
        → Good a
        → read_error new ≡ none
        → Written (committed commit old new a)
    unfolding committed
    committed-Written a durable q g h = saved g sound h
    committed-Written a (unsure true) q g h = uncertain g sound h q
    committed-Written a (unsure false) q g h = refused (database (commit_failed q))

    reread-Written :
        (a : A) (o : Option Error)
        → Good a
        → failed_or fate.reread (read_error new) ≡ o
        → Written (reread fate old new a o)
    unfolding reread
    reread-Written a none g h =
        committed-Written a fate.commit refl g (failed_or-none fate.reread (read_error new) h)
    reread-Written a (some e) g h =
        abandoned-Written e (elim (failed_or-some fate.reread (read_error new) e h) [
          | inl q ↦ database (reread_failed q)
          | inr q ↦ overfull g q
        ])

    pub changed_by-Written :
        (changed : Bool) (a : A)
        → Good a
        → (changed ≡ false → new ≡ old)
        → Written (changed_by fate old (ok ((new, changed), a)))
    unfolding changed_by
    changed_by-Written true a g same = reread-Written a _ g refl
    changed_by-Written false a g same = unchanged-Written a g (same refl)

    pub refused_by-Written : (e : Error) → Why e → Written (changed_by fate old (err e))
    unfolding changed_by
    refused_by-Written e why = abandoned-Written e why

  module _ (change : Documents → Result ((Documents × Bool) × A))
      (changes : read_error old ≡ none → Written (changed_by fate old (change old))) where
    first_read-Written :
        (o : Option Error)
        → failed_or fate.read (read_error old) ≡ o
        → Written (first_read fate change old o)
    unfolding first_read
    first_read-Written none h = changes (failed_or-none fate.read (read_error old) h)
    first_read-Written (some e) h =
        abandoned-Written e (elim (failed_or-some fate.read (read_error old) e h) [
          | inl q ↦ database (read_failed q)
          | inr q ↦ unsound q
        ])

    begun-Written : (o : Option Error) → fate.begin ≡ o → Written (begun fate change old o)
    unfolding begun
    begun-Written none q = first_read-Written _ refl
    begun-Written (some e) q = refused (database (begin_failed q))

    connected-Written : (o : Option Error) → fate.conn ≡ o → Written (connected fate change old o)
    unfolding connected
    connected-Written none q = begun-Written fate.begin refl
    connected-Written (some e) q = refused (database (conn_failed q))

    pub write-Written : Written (write fate change old)
    unfolding write
    write-Written = connected-Written fate.conn refl
