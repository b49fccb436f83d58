-- ===== src/Tun/Sessions/Forgetting.antt =====
-- The second half of `watch` keeps the registry well formed.
use specter.Prelude.{
  ℕ, ◌≤◌, ◌≡◌, ◌≢◌, sym, ap, ◌∙◌, inl, inr, true, Eq, some, List, [], ◌∷◌, Bytes, bytes_eq, nat_eq,
  length, ◌==◌, Bool-cases, Option-cases, arith,
}
use specter.Containers.{find, member}
use specter.Containers.Assoc.{without, find-without}
use specter.Tun.Sessions.{Session, Registry, connection_done, drop_found, drop_entry, forget}
use specter.Tun.Sessions.Invariant.{IsLive, Inv, some_eq}

pub length-without :
    {K V : Type 0} ⦃e : Eq K⦄ (k : K) (m : List (K × V)) → length (without k m) ≤ length m
length-without k [] = omega arith
length-without k ((j, v) ∷ m) = ground (arith, length-without k m)

module _ {K : Type 0} ⦃e : Eq K⦄ (k : K) (h : ℕ) where
  length-drop_entry : (m : List (K × ℕ)) → length (drop_entry k h m) ≤ length m
  unfolding drop_entry
  length-drop_entry m = elim (Option-cases (find k m)) [
    | inl q ↦ rw (q, drop_found) (omega arith)
    | inr (x, q) ↦
        rw (q, drop_found)
          (elim (Bool-cases (x == h)) [
            | inl own ↦ rw own (length-without k m)
            | inr other ↦ rw other (omega arith)
          ])
  ]

  -- The other sessions keep their entries, and no entry of the key is left to this one.
  find-drop_entry :
      (j : K) (m : List (K × ℕ)) (x : ℕ)
      → find j m ≡ some x
      → x ≢ h
      → find j (drop_entry k h m) ≡ some x
  unfolding drop_entry drop_found
  find-drop_entry j m x q other =
      ground (arith, find-without k j m, Option-cases (find k m), e.beq_iff k j)

  drop_entry-find :
      (j : K) (m : List (K × ℕ)) (x : ℕ) → find j (drop_entry k h m) ≡ some x → find j m ≡ some x
  unfolding drop_entry drop_found
  drop_entry-find j m x q =
      ground (arith, find-without k j m, Option-cases (find k m), e.beq_iff k j)

  drop_entry-ne : (m : List (K × ℕ)) (x : ℕ) → find k (drop_entry k h m) ≡ some x → x ≢ h
  unfolding drop_entry drop_found
  drop_entry-ne m x q same =
      ground (arith, find-without k k m, Option-cases (find k m), e.beq_iff k k)

module _ (r : Registry) (inv : Inv r) (h : ℕ) (s : Session) (object : r.sessions h ≡ some s)
    (gone : connection_done r s ≡ true) where
  -- A live session is another one.
  live_other : (j : ℕ) (t : Session) → IsLive (forget h s r) j t → j ≢ h
  unfolding forget
  live_other j t live e =
      let q : t ≡ s = some_eq (sym live.object ∙ ap r.sessions e ∙ object) in
      cc (sym live.connected ∙ ap (λ (x : Session). member x.conn r.done) q ∙ gone)

  left_alias :
      (alias : Bytes) (j : ℕ) → find alias (drop_entry s.alias h r.by_alias) ≡ some j → j ≢ h
  left_alias alias j e p =
      let was = inv.named alias j (drop_entry-find s.alias h alias r.by_alias j e) in
      let q : was.session ≡ s = some_eq (sym was.object ∙ ap r.sessions p ∙ object) in
      let same : s.alias ≡ alias = ap (λ (x : Session). x.alias) (sym q) ∙ was.same_alias in
      drop_entry-ne s.alias h r.by_alias j
        (ap (λ x. find x (drop_entry s.alias h r.by_alias)) same ∙ e) p

  pub forget-Inv : Inv (forget h s r)
  unfolding forget
  forget-Inv = record {
    named = λ alias j e.
        let was = inv.named alias j (drop_entry-find s.alias h alias r.by_alias j e) in
        record {
          session = was.session;
          object = was.object;
          same_alias = was.same_alias;
          occupies =
              find-drop_entry s.conn h was.session.conn r.by_conn j was.occupies
                (left_alias alias j e);
          let_in = was.let_in;
        };
    bounded = omega (arith, length-drop_entry s.conn h r.by_conn, inv.bounded);
    known = inv.known;
    let_in = inv.let_in;
    single = λ j t live.
        find-drop_entry s.alias h t.alias r.by_alias j
          (inv.single j t (record {
            object = live.object;
            let_in = live.let_in;
            running = live.running;
            connected = live.connected;
          }))
          (live_other j t live);
    activated = inv.activated;
    authorized = inv.authorized;
  }
