-- ===== src/Tun/Sessions/Invariant.antt =====
-- The registry stays well formed whatever the goroutines do next.
use specter.Prelude.{
  ℕ, ◌≤◌, ◌<◌, ◌≡◌, ◌≢◌, refl, sym, ap, subst, ◌∙◌, ◌⊎◌, inl, inr, Bool, true, false, ◌&&◌, ◌||◌,
  Option, none, some, ◌∷◌, Bytes, bytes_eq, nat_eq, ◌=?◌, length, ltb, ◌==◌, ==_iff, Bool-cases,
  arith,
}
use specter.Containers.{find, member}
use specter.Tun.Sessions.{
  Session, SessionState, provisional, active, terminal, delegated, Registry, max_sessions,
  connection_done, is_terminal, is_active, is_provisional, is_ephemeral, set_session, may_activate,
  activate, terminate, identify, authorization_deadline, activation_until, extend,
}

-- The authorization of a delegated session ends with its certificate and its grant.
abbrev pub WithinGrant : Option ℕ → ℕ → Type 0
WithinGrant none until = Unit {0}
WithinGrant (some expiry) until = until ≤ expiry

abbrev pub IsAuthorized : Session → Type 0
IsAuthorized s =
    (s.authorized_until ≤ s.cert_not_after) × WithinGrant s.grant_expiry s.authorized_until

-- The handle is that of a session which was let in and is neither terminal nor without its
-- connection.
pub record IsLive (r : Registry) (h : ℕ) (s : Session) : Type 0 where
  pub object : r.sessions h ≡ some s
  pub let_in : member h r.opened ≡ true
  pub running : is_terminal s.state ≡ false
  pub connected : connection_done r s ≡ false

pub record IsNamed (r : Registry) (alias : Bytes) (h : ℕ) : Type 0 where
  pub session : Session
  pub object : r.sessions h ≡ some session
  pub same_alias : session.alias ≡ alias
  pub occupies : find session.conn r.by_conn ≡ some h
  pub let_in : member h r.opened ≡ true

pub record Inv (r : Registry) : Type 0 where
  pub named : (alias : Bytes) (h : ℕ) → find alias r.by_alias ≡ some h → IsNamed r alias h
  pub bounded : length r.by_conn ≤ max_sessions
  pub known : (h : ℕ) (s : Session) → r.sessions h ≡ some s → h < r.next
  pub let_in : (h : ℕ) → member h r.opened ≡ true → h < r.next
  pub single : (h : ℕ) (s : Session) → IsLive r h s → find s.alias r.by_alias ≡ some h
  pub activated :
      (h : ℕ) (s : Session) → r.sessions h ≡ some s → s.state ≡ active → member h r.opened ≡ true
  pub authorized :
      (h : ℕ) (s : Session)
      → r.sessions h ≡ some s
      → s.state ≡ active
      → s.mode ≡ delegated
      → IsAuthorized s

pub or_right : (a b : Bool) → (a || b) ≡ false → b ≡ false
or_right a b h = ground arith

pub some_eq : {A : Type 0} {a b : A} → some a ≡ some b → a ≡ b
some_eq e = cc

-- A session is replaced by one with the same alias and connection, which is running only if it
-- was, and active only if it was let in and is authorized.
pub record Follows (r : Registry) (h : ℕ) (s s' : Session) : Type 0 where
  pub object : r.sessions h ≡ some s
  pub alias : s'.alias ≡ s.alias
  pub conn : s'.conn ≡ s.conn
  pub running : is_terminal s'.state ≡ false → is_terminal s.state ≡ false
  pub activated : s'.state ≡ active → member h r.opened ≡ true
  pub authorized : s'.state ≡ active → s'.mode ≡ delegated → IsAuthorized s'

module _ (r : Registry) (inv : Inv r) (h : ℕ) (s s' : Session) (f : Follows r h s s') where
  -- What the handle `j` leads to afterwards.
  now_at :
      (j : ℕ) (t : Session)
      → (set_session h s' r).sessions j ≡ some t
      → ((h ≡ j) × (t ≡ s')) ⊎ ((h == j ≡ false) × (r.sessions j ≡ some t))
  now_at j t e = ground (arith, ==_iff h j)

  replaced_named :
      (alias : Bytes) (j : ℕ)
      → find alias r.by_alias ≡ some j
      → IsNamed (set_session h s' r) alias j
  replaced_named alias j e =
      let was = inv.named alias j e in
      elim (Bool-cases (h == j)) [
        | inl same ↦
            let p : h ≡ j = (==_iff h j).0 same in
            let q : was.session ≡ s = some_eq (sym was.object ∙ ap r.sessions (sym p) ∙ f.object) in
            record {
              session = s';
              object = rw same refl;
              same_alias = f.alias ∙ ap (λ (x : Session). x.alias) (sym q) ∙ was.same_alias;
              occupies =
                  ap (λ c. find c r.by_conn) (f.conn ∙ ap (λ (x : Session). x.conn) (sym q))
                  ∙ was.occupies;
              let_in = was.let_in;
            }
        | inr other ↦ record {
          session = was.session;
          object = rw other was.object;
          same_alias = was.same_alias;
          occupies = was.occupies;
          let_in = was.let_in;
        }
      ]

  replaced_single :
      (j : ℕ) (t : Session) → IsLive (set_session h s' r) j t → find t.alias r.by_alias ≡ some j
  replaced_single j t live = elim (now_at j t live.object) [
    | inl (p, q) ↦
        let before : IsLive r h s = record {
          object = f.object;
          let_in = ap (λ x. member x r.opened) p ∙ live.let_in;
          running = f.running (ap (λ (x : Session). is_terminal x.state) (sym q) ∙ live.running);
          connected =
              ap (λ x. member x r.done) (sym f.conn ∙ ap (λ (x : Session). x.conn) (sym q))
              ∙ live.connected;
        } in
        ap (λ x. find x r.by_alias) (ap (λ (x : Session). x.alias) q ∙ f.alias)
        ∙ inv.single h s before
        ∙ ap some p
    | inr (other, object) ↦ inv.single j t (record {
      object = object;
      let_in = live.let_in;
      running = live.running;
      connected = live.connected;
    })
  ]

  pub replaced-Inv : Inv (set_session h s' r)
  replaced-Inv = record {
    named = replaced_named;
    bounded = inv.bounded;
    known = λ j t e. elim (now_at j t e) [
      | inl (p, q) ↦ subst (λ x. x < r.next) p (inv.known h s f.object)
      | inr (other, object) ↦ inv.known j t object
    ];
    let_in = inv.let_in;
    single = replaced_single;
    activated = λ j t e a. elim (now_at j t e) [
      | inl (p, q) ↦
          subst (λ x. member x r.opened ≡ true) p
            (f.activated (ap (λ (x : Session). x.state) (sym q) ∙ a))
      | inr (other, object) ↦ inv.activated j t object a
    ];
    authorized = λ j t e a m. elim (now_at j t e) [
      | inl (p, q) ↦ subst IsAuthorized (sym q) (
          f.authorized (ap (λ (x : Session). x.state) (sym q) ∙ a)
            (ap (λ (x : Session). x.mode) (sym q) ∙ m))
      | inr (other, object) ↦ inv.authorized j t object a m
    ];
  }

provisional_running : (x : SessionState) → is_provisional x ≡ true → is_terminal x ≡ false
provisional_running provisional h = refl
provisional_running active h = refl
provisional_running terminal h = cc

may_activate_running :
    (r : Registry) (cancelled : Bool) (now until : ℕ) (s : Session)
    → may_activate r cancelled now until s ≡ true
    → is_terminal s.state ≡ false
unfolding may_activate
may_activate_running r cancelled now until s h = provisional_running s.state (ground arith)

-- The deadline lies within the certificate and the grant.
deadline_within :
    (start : ℕ) (expiry : Option ℕ) (s : Session)
    → (authorization_deadline start expiry s ≤ s.cert_not_after)
      × WithinGrant expiry (authorization_deadline start expiry s)
unfolding authorization_deadline
deadline_within start none s = (ground arith, tt)
deadline_within start (some expiry) s = (ground arith, ground arith)

module _ (r : Registry) (inv : Inv r) (h : ℕ) (s : Session) (object : r.sessions h ≡ some s) where
  pub terminate-Inv : Inv (terminate h s r)
  unfolding terminate
  terminate-Inv =
      replaced-Inv r inv h s (record s { state = terminal })
        (record {
          object = object;
          alias = refl;
          conn = refl;
          running = λ e. cc;
          activated = λ e. cc;
          authorized = λ e m. cc;
        })

  pub identify-Inv :
      (hostname owner : Bytes) (expiry : Option ℕ)
      → s.state ≢ active
      → Inv (identify hostname owner expiry h s r)
  unfolding identify
  identify-Inv hostname owner expiry idle =
      replaced-Inv r inv h s
        (record s { hostname = hostname; owner = owner; grant_expiry = expiry })
        (record {
          object = object;
          alias = refl;
          conn = refl;
          running = λ e. e;
          activated = λ e. absurd (idle e);
          authorized = λ e m. absurd (idle e);
        })

  activation-IsAuthorized :
      (start : ℕ)
      → s.mode ≡ delegated
      → IsAuthorized (record s { state = active; authorized_until = activation_until start s })
  unfolding activation_until
  activation-IsAuthorized start m = rw (ap is_ephemeral m) (deadline_within start s.grant_expiry s)

  pub activate-Inv :
      (cancelled : Bool) (now start : ℕ)
      → member h r.opened ≡ true
      → Inv (activate cancelled now (activation_until start s) h s r)
  unfolding activate
  activate-Inv cancelled now start opened =
      let until = activation_until start s in
      elim (Bool-cases (may_activate r cancelled now until s)) [
        | inl may ↦ rw may (
            replaced-Inv r inv h s (record s { state = active; authorized_until = until })
              (record {
                object = object;
                alias = refl;
                conn = refl;
                running = λ e. may_activate_running r cancelled now until s may;
                activated = λ e. opened;
                authorized = λ e m. activation-IsAuthorized start m;
              }))
        | inr may_not ↦ rw may_not inv
      ]

  pub extend-Inv : (now start : ℕ) → Inv (extend now start s.grant_expiry h s r)
  unfolding extend
  extend-Inv now start =
      let until = authorization_deadline start s.grant_expiry s in
      elim (Bool-cases
        (is_active s.state && ltb now s.authorized_until && ltb s.authorized_until until)) [
          | inl may ↦ rw may (
              replaced-Inv r inv h s (record s { authorized_until = until })
                (record {
                  object = object;
                  alias = refl;
                  conn = refl;
                  running = λ e. e;
                  activated = λ e. inv.activated h s object e;
                  authorized = λ e m. deadline_within start s.grant_expiry s;
                }))
          | inr may_not ↦ rw may_not inv
        ]

pub finish-Inv : (r : Registry) (conn : ℕ) → Inv r → Inv (record r { done = conn ∷ r.done })
finish-Inv r conn inv = record {
  named = λ alias h e.
      let was = inv.named alias h e in
      record {
        session = was.session;
        object = was.object;
        same_alias = was.same_alias;
        occupies = was.occupies;
        let_in = was.let_in;
      };
  bounded = inv.bounded;
  known = inv.known;
  let_in = inv.let_in;
  single = λ h s live. inv.single h s (record {
    object = live.object;
    let_in = live.let_in;
    running = live.running;
    connected = or_right (conn =? s.conn) (member s.conn r.done) live.connected;
  });
  activated = inv.activated;
  authorized = inv.authorized;
}
