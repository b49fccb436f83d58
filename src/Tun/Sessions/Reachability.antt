-- ===== src/Tun/Sessions/Reachability.antt =====
-- What holds of every registry that the goroutines lead to.
use specter.Prelude.{
  ℕ, ◌≤◌, ◌<◌, ◌≡◌, refl, sym, ap, ◌∙◌, Bool, true, false, not, ◌||◌, Option, none, some, Bytes,
  bytes_eq, bytes_beq_iff, nat_eq, ltb, arith,
}
use specter.Containers.{find}
use specter.Tun.Sessions.{
  Session, SessionState, provisional, active, terminal, SessionMode, ephemeral, delegated, Registry,
  connection_done, is_terminal, is_active, is_ephemeral, new_session_registry, may_dial,
  dial_session, dial_at, dial, Step, Reach,
}
use specter.Tun.Sessions.Invariant.{
  WithinGrant, Inv, some_eq, finish-Inv, terminate-Inv, identify-Inv, activate-Inv, extend-Inv,
}
use specter.Tun.Sessions.Forgetting.{forget-Inv}
use specter.Tun.Sessions.Reserving.{reserve-Inv}

Step-Inv : {r r' : Registry} → Step r r' → Inv r → Inv r'
Step-Inv {r} (Step.reserves s fresh) inv = reserve-Inv r s fresh inv
Step-Inv {r} (Step.identifies h s hostname owner expiry object idle) inv =
    identify-Inv r inv h s object hostname owner expiry idle
Step-Inv {r} (Step.activates h s cancelled now start object opened) inv =
    activate-Inv r inv h s object cancelled now start opened
Step-Inv {r} (Step.terminates h s object) inv = terminate-Inv r inv h s object
Step-Inv {r} (Step.extends h s now start object) inv = extend-Inv r inv h s object now start
Step-Inv {r} (Step.finishes conn) inv = finish-Inv r conn inv
Step-Inv {r} (Step.forgets h s object stopped gone) inv = forget-Inv r inv h s object gone

new-Inv : Inv new_session_registry
unfolding new_session_registry
new-Inv = record {
  named = λ alias h e. cc;
  bounded = omega arith;
  known = λ h s e. cc;
  let_in = λ h e. cc;
  single = λ h s live. cc (live.let_in);
  activated = λ h s e a. cc;
  authorized = λ h s e a m. cc;
}

-- In every registry that the steps of its sessions lead to from the empty one, an alias leads to
-- a session with this alias that was let in and occupies its connection; at most maxSessions
-- connections are occupied; each session that was let in, is not terminal and has its connection
-- is the one that its alias leads to; an active session was let in; and an active delegated one
-- is authorized no longer than its certificate and its grant last.
pub Reach-Inv : {r : Registry} → Reach new_session_registry r → Inv r
Reach-Inv Reach.here = new-Inv
Reach-Inv (Reach.next_step reach step) = Step-Inv step (Reach-Inv reach)

abbrev pub WithinTime : ℕ → Option ℕ → Type 0
WithinTime now none = Unit {0}
WithinTime now (some expiry) = now < expiry

-- What a dial opens a stream at.
pub record Dialled (r : Registry) (now : ℕ) (alias hostname : Bytes) (h : ℕ) : Type 0 where
  pub session : Session
  pub object : r.sessions h ≡ some session
  pub same_alias : session.alias ≡ alias
  pub same_hostname : session.hostname ≡ hostname
  pub is_on : session.state ≡ active
  pub connected : connection_done r session ≡ false
  pub in_time :
      session.mode ≡ delegated
      → (now < session.cert_not_after) × WithinTime now session.grant_expiry
  pub alone :
      (j : ℕ) (t : Session)
      → r.sessions j ≡ some t
      → t.alias ≡ alias
      → t.state ≡ active
      → connection_done r t ≡ false
      → j ≡ h

less : (a b c : ℕ) → a < b → b ≤ c → a < c
less a b c h k = omega arith

within_time :
    (expiry : Option ℕ) (now until : ℕ)
    → now < until
    → WithinGrant expiry until
    → WithinTime now expiry
within_time none now until h k = tt
within_time (some e) now until h k = less now until e h k

state_active : (x : SessionState) → is_active x ≡ true → x ≡ active
state_active active h = refl
state_active provisional h = cc
state_active terminal h = cc

not-false : (b : Bool) → not b ≡ true → b ≡ false
not-false b h = ground arith

timed :
    (m : SessionMode) (now until : ℕ)
    → m ≡ delegated
    → (is_ephemeral m || ltb now until) ≡ true
    → now < until
timed delegated now until e h = ground arith
timed ephemeral now until e h = cc

dial_session_lem :
    (r : Registry) (now : ℕ) (hostname : Bytes) (i h : ℕ) (o : Option Session)
    → dial_session r now hostname i o ≡ some h
    → (s : Session) × (i ≡ h) × (o ≡ some s) × (may_dial r now hostname s ≡ true)
unfolding dial_session
dial_session_lem r now hostname i h none e = cc
dial_session_lem r now hostname i h (some s) e = (s, ground arith, refl, ground arith)

dial_at_lem :
    (r : Registry) (now : ℕ) (hostname : Bytes) (h : ℕ) (o : Option ℕ)
    → dial_at r now hostname o ≡ some h
    → (s : Session) × (o ≡ some h) × (r.sessions h ≡ some s) × (may_dial r now hostname s ≡ true)
unfolding dial_at
dial_at_lem r now hostname h none e = cc
dial_at_lem r now hostname h (some i) e =
    let (s, p, object, may) = dial_session_lem r now hostname i h (r.sessions i) e in
    (s, ap some p, ap r.sessions (sym p) ∙ object, may)

may_dial_parts :
    (r : Registry) (now : ℕ) (hostname : Bytes) (s : Session)
    → may_dial r now hostname s ≡ true
    → (s.state ≡ active)
      × (s.hostname ≡ hostname)
      × (connection_done r s ≡ false)
      × (s.mode ≡ delegated → now < s.authorized_until)
unfolding may_dial
may_dial_parts r now hostname s h = (
  state_active s.state (ground arith),
  (bytes_beq_iff s.hostname hostname).0 (ground arith),
  not-false (connection_done r s) (ground arith),
  λ m. timed s.mode now s.authorized_until m (ground arith),
)

-- In a registry that the steps of its sessions lead to from the empty one, dial opens a stream
-- only at a session with the given alias and hostname that is active and still connected and, if
-- it is delegated, before the end of its certificate and of its grant; and no other session with
-- this alias is active and connected.
pub dial-Dialled :
    (r : Registry) (now : ℕ) (alias hostname : Bytes) (h : ℕ)
    → Reach new_session_registry r
    → dial now alias hostname r ≡ some h
    → Dialled r now alias hostname h
unfolding dial
dial-Dialled r now alias hostname h reach e =
    let inv = Reach-Inv reach in
    let (s, held, object, may) = dial_at_lem r now hostname h (find alias r.by_alias) e in
    let (is_on, same_hostname, connected, until) = may_dial_parts r now hostname s may in
    let was = inv.named alias h held in
    let same : was.session ≡ s = some_eq (sym was.object ∙ object) in
    record {
      session = s;
      object = object;
      same_alias = ap (λ (x : Session). x.alias) (sym same) ∙ was.same_alias;
      same_hostname = same_hostname;
      is_on = is_on;
      connected = connected;
      in_time = λ m.
          let (cert, grant) = inv.authorized h s object is_on m in
          (
            less now s.authorized_until s.cert_not_after (until m) cert,
            within_time s.grant_expiry now s.authorized_until (until m) grant,
          );
      alone = λ j t object' alias' on' connected'. some_eq (
          sym (
            inv.single j t (record {
              object = object';
              let_in = inv.activated j t object' on';
              running = ap is_terminal on';
              connected = connected';
            }))
          ∙ ap (λ x. find x r.by_alias) alias'
          ∙ held);
    }
