-- ===== src/Tun/Sessions/Reserving.antt =====
-- `reserve` keeps the registry well formed.
use specter.Prelude.{
  ℕ, ◌<◌, ◌≡◌, refl, sym, ap, ◌∙◌, ◌⊎◌, inl, inr, Bool, true, false, ◌||◌, Option, none, some, ◌∷◌,
  Bytes, bytes_eq, bytes_beq_iff, nat_eq, length, leb, ◌==◌, ==_iff, Bool-cases, arith,
}
use specter.Containers.{find, member}
use specter.Containers.Assoc.{without, load-store_lem}
use specter.Tun.Changes.{bytes_differ}
use specter.Tun.Sessions.{
  Session, provisional, Registry, max_sessions, connection_done, is_terminal, Reserved, granted,
  one_attempt, limit_reached, collision, still_attached, alias_free, held_alias, store_alias,
  admitted, reserve, reserve_from,
}
use specter.Tun.Sessions.Invariant.{IsLive, IsNamed, Inv, some_eq}
use specter.Tun.Sessions.Forgetting.{length-without}

-- Reserving, where the connection is not taken and there is room.
module _ (r : Registry) (inv : Inv r) (s : Session) (fresh : s.state ≡ provisional)
    (free : find s.conn r.by_conn ≡ none) (room : length r.by_conn < max_sessions) where
  admitted_at :
      (j : ℕ) (t : Session)
      → (admitted s r).sessions j ≡ some t
      → ((r.next ≡ j) × (t ≡ s)) ⊎ ((r.next == j ≡ false) × (r.sessions j ≡ some t))
  unfolding admitted
  admitted_at j t e = ground (arith, ==_iff r.next j)

  not_opened : member r.next r.opened ≡ true → ⊥
  not_opened e = absurd (omega (arith, inv.let_in r.next e))

  conn_kept : (c h : ℕ) → find c r.by_conn ≡ some h → find c (admitted s r).by_conn ≡ some h
  unfolding admitted
  conn_kept c h e = ground (arith, load-store_lem s.conn c r.next r.by_conn, ==_iff s.conn c)

  next_other : (h : ℕ) → h < r.next → r.next == h ≡ false
  next_other h l = ground arith

  admitted_named :
      (alias : Bytes) (h : ℕ) → find alias r.by_alias ≡ some h → IsNamed (admitted s r) alias h
  unfolding admitted
  admitted_named alias h e =
      let was = inv.named alias h e in
      record {
        session = was.session;
        object = rw (next_other h (inv.known h was.session was.object)) was.object;
        same_alias = was.same_alias;
        occupies = conn_kept was.session.conn h was.occupies;
        let_in = was.let_in;
      }

  admitted-Inv : Inv (admitted s r)
  unfolding admitted
  admitted-Inv = record {
    named = admitted_named;
    bounded = omega (arith, length-without s.conn r.by_conn);
    known = λ j t e. elim (admitted_at j t e) [
      | inl (p, q) ↦ omega arith
      | inr (other, object) ↦ omega (arith, inv.known j t object)
    ];
    let_in = λ j e. omega (arith, inv.let_in j e);
    single = λ j t live. elim (admitted_at j t live.object) [
      | inl (p, q) ↦ absurd (not_opened (ap (λ x. member x r.opened) p ∙ live.let_in))
      | inr (other, object) ↦ inv.single j t (record {
        object = object;
        let_in = live.let_in;
        running = live.running;
        connected = live.connected;
      })
    ];
    activated = λ j t e a. elim (admitted_at j t e) [
      | inl (p, q) ↦ cc (fresh, q, a)
      | inr (other, object) ↦ inv.activated j t object a
    ];
    authorized = λ j t e a m. elim (admitted_at j t e) [
      | inl (p, q) ↦ cc (fresh, q, a)
      | inr (other, object) ↦ inv.authorized j t object a m
    ];
  }

or_other : (a : Bool) {b : Bool} → a ≡ false → (a || b) ≡ true → b ≡ true
or_other a p h = ground arith

or_true : (a : Bool) {b : Bool} → b ≡ true → (a || b) ≡ true
or_true a h = ground arith

-- A session gets its alias, where the one that had it is terminal or without its connection.
module _ (r : Registry) (inv : Inv r) (h : ℕ) (s : Session) (object : r.sessions h ≡ some s)
    (occupies : find s.conn r.by_conn ≡ some h)
    (old_gone : (j : ℕ) (t : Session) → IsLive r j t → t.alias ≡ s.alias → ⊥) where
  abbrev named_registry : Registry
  named_registry = record r {
    by_alias = (s.alias, h) ∷ without s.alias r.by_alias;
    opened = h ∷ r.opened;
  }

  alias_at :
      (alias : Bytes) (j : ℕ)
      → find alias ((s.alias, h) ∷ without s.alias r.by_alias) ≡ some j
      → ((s.alias ≡ alias) × (h ≡ j)) ⊎ (find alias r.by_alias ≡ some j)
  alias_at alias j e =
      ground (arith, load-store_lem s.alias alias h r.by_alias, bytes_beq_iff s.alias alias)

  store_named :
      (alias : Bytes) (j : ℕ)
      → find alias named_registry.by_alias ≡ some j
      → IsNamed named_registry alias j
  store_named alias j e = elim (alias_at alias j e) [
    | inl (p, q) ↦ record {
      session = s;
      object = ap r.sessions (sym q) ∙ object;
      same_alias = p;
      occupies = occupies ∙ ap some q;
      let_in = ground (arith, ==_iff h j);
    }
    | inr e' ↦
        let was = inv.named alias j e' in
        record {
          session = was.session;
          object = was.object;
          same_alias = was.same_alias;
          occupies = was.occupies;
          let_in = or_true (h == j) was.let_in;
        }
  ]

  store_single :
      (j : ℕ) (t : Session)
      → IsLive named_registry j t
      → find t.alias named_registry.by_alias ≡ some j
  store_single j t live = elim (Bool-cases (h == j)) [
    | inl same ↦
        let p : h ≡ j = (==_iff h j).0 same in
        let q : t ≡ s = some_eq (sym live.object ∙ ap r.sessions (sym p) ∙ object) in
        rw ((bytes_beq_iff s.alias t.alias).1 (ap (λ (x : Session). x.alias) (sym q))) (ap some p)
    | inr other ↦
        let before : IsLive r j t = record {
          object = live.object;
          let_in = or_other (h == j) other live.let_in;
          running = live.running;
          connected = live.connected;
        } in
        load-store_lem s.alias t.alias h r.by_alias
        ∙ rw (bytes_differ s.alias t.alias (λ e. old_gone j t before (sym e)))
            (inv.single j t before)
  ]

  opened_at : (j : ℕ) → member j (h ∷ r.opened) ≡ true → j < r.next
  opened_at j e = elim (Bool-cases (h == j)) [
    | inl same ↦ omega (arith, inv.known h s object, (==_iff h j).0 same)
    | inr other ↦ inv.let_in j (ground arith)
  ]

  named-Inv : Inv named_registry
  named-Inv = record {
    named = store_named;
    bounded = inv.bounded;
    known = inv.known;
    let_in = λ j e. opened_at j e;
    single = store_single;
    activated = λ j t e a. or_true (h == j) (inv.activated j t e a);
    authorized = inv.authorized;
  }

module _ (r : Registry) (inv : Inv r) (s : Session) (fresh : s.state ≡ provisional)
    (free : find s.conn r.by_conn ≡ none) (room : length r.by_conn < max_sessions) where
  -- An alias that is free for the session has no live session.
  free_gone :
      (old : Session)
      → alias_free r s old ≡ granted
      → (is_terminal old.state ≡ true) ⊎ (connection_done r old ≡ true)
  unfolding alias_free
  free_gone old h = ground arith

  held_gone :
      (holder : Option ℕ)
      → held_alias r s holder ≡ granted
      → (j : ℕ) (t : Session) → holder ≡ some j
      → r.sessions j ≡ some t
      → (is_terminal t.state ≡ true) ⊎ (connection_done r t ≡ true)
  unfolding held_alias
  held_gone none h j t e object = cc
  held_gone (some i) h j t e object =
      let p : i ≡ j = some_eq e in free_gone t (held_at (r.sessions i) (ap r.sessions p ∙ object) h)
    where
      held_at :
          (o : Option Session) {t : Session}
          → o ≡ some t
          → (elim o as (λ x. Reserved) [ none ↦ granted | some old ↦ alias_free r s old ]) ≡ granted
          → alias_free r s t ≡ granted
      held_at none e h = cc
      held_at (some x) e h = ap (alias_free r s) (some_eq (sym e)) ∙ h

  admitted_gone :
      held_alias r s (find s.alias r.by_alias) ≡ granted
      → (j : ℕ) (t : Session) → IsLive (admitted s r) j t
      → t.alias ≡ s.alias
      → ⊥
  unfolding admitted
  admitted_gone h j t live e = elim (admitted_at r inv s fresh free room j t live.object) [
    | inl (p, q) ↦ not_opened r inv s fresh free room (ap (λ x. member x r.opened) p ∙ live.let_in)
    | inr (other, object) ↦
        let holder = inv.single j t (record {
          object = object;
          let_in = live.let_in;
          running = live.running;
          connected = live.connected;
        }) in
        elim (held_gone (find s.alias r.by_alias) h j t
          (ap (λ x. find x r.by_alias) (sym e) ∙ holder) object) [
            | inl stopped ↦ cc (stopped, live.running)
            | inr cut_off ↦ cc (cut_off, live.connected)
          ]
  ]

  admitted_object : (admitted s r).sessions r.next ≡ some s
  unfolding admitted
  admitted_object = rw ((==_iff r.next r.next).1 refl)

  admitted_occupies : find s.conn (admitted s r).by_conn ≡ some r.next
  unfolding admitted
  admitted_occupies = rw ((==_iff s.conn s.conn).1 refl)

  stored-Inv :
      (outcome : Reserved)
      → held_alias r s (find s.alias r.by_alias) ≡ outcome
      → Inv (store_alias outcome r.next s (admitted s r))
  unfolding store_alias
  stored-Inv granted h =
      named-Inv (admitted s r) (admitted-Inv r inv s fresh free room) r.next s admitted_object
        admitted_occupies (admitted_gone h)
  stored-Inv one_attempt h = admitted-Inv r inv s fresh free room
  stored-Inv limit_reached h = admitted-Inv r inv s fresh free room
  stored-Inv collision h = admitted-Inv r inv s fresh free room
  stored-Inv still_attached h = admitted-Inv r inv s fresh free room

below_max : (n : ℕ) → leb max_sessions n ≡ false → n < max_sessions
below_max n h = ground arith

reserve_from-Inv :
    (r : Registry) (s : Session) (occupied : Option ℕ)
    → find s.conn r.by_conn ≡ occupied
    → s.state ≡ provisional
    → Inv r
    → Inv (reserve_from occupied s r).0
unfolding reserve_from
reserve_from-Inv r s (some h) e fresh inv = inv
reserve_from-Inv r s none e fresh inv = elim (Bool-cases (leb max_sessions (length r.by_conn))) [
  | inl full ↦ rw full inv
  | inr room ↦ rw room (stored-Inv r inv s fresh e (below_max (length r.by_conn) room) _ refl)
]

pub reserve-Inv : (r : Registry) (s : Session) → s.state ≡ provisional → Inv r → Inv (reserve s r).0
unfolding reserve
reserve-Inv r s fresh inv = reserve_from-Inv r s (find s.conn r.by_conn) refl fresh inv
