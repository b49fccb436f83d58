-- ===== src/Tun/Sessions.antt =====
-- tun/server/session.go: the sessions that are attached to a tunnel server. A session is a shared
-- object with a handle of its own; its watcher and the handlers run as steps of their own.
pub mod Invariant
pub mod Forgetting
pub mod Reserving
pub mod Reachability
use specter.Prelude.{
  ℕ, suc, ◌+◌, ◌*◌, ◌≡◌, ◌≢◌, Eq, Bool, true, false, not, ◌&&◌, ◌||◌, Option, none, some, List, [],
  ◌∷◌, Bytes, bytes_eq, nat_eq, ◌=?◌, length, ltb, leb, ◌==◌, if◌then◌else◌,
}
use specter.Errors.{Error, wrapped, plain}
use specter.Containers.{find, member}
use specter.Containers.Assoc.{without}

-- maxSessions, and revalidateGrace in nanoseconds.
abbrev pub max_sessions : ℕ
max_sessions = 1024

abbrev pub revalidate_grace : ℕ
revalidate_grace = 120 * 1000000000

pub data SessionMode : Type 0 where
  ephemeral delegated : SessionMode

pub data SessionState : Type 0 where
  provisional active terminal : SessionState

-- session: times are nanoseconds, and `none` is the zero time of `grantExpiry`.
pub record Session : Type 0 where
  pub alias : Bytes
  pub hostname : Bytes
  pub conn : ℕ
  pub mode : SessionMode
  pub spki : Bytes
  pub owner : Bytes
  pub grant_expiry : Option ℕ
  pub cert_not_after : ℕ
  pub state : SessionState
  pub authorized_until : ℕ

-- sessionRegistry, with the sessions that its pointers lead to, the connections that are done, and
-- the sessions whose `reserve` returned nil.
pub record Registry : Type 0 where
  pub by_alias : List (Bytes × ℕ)
  pub by_conn : List (ℕ × ℕ)
  pub sessions : ℕ → Option Session
  pub next : ℕ
  pub done : List ℕ
  pub opened : List ℕ

-- newSessionRegistry
unfoldable pub new_session_registry : Registry
new_session_registry = record {
  by_alias = [];
  by_conn = [];
  sessions = λ h. none;
  next = 0;
  done = [];
  opened = [];
}

-- connectionDone
abbrev pub connection_done : Registry → Session → Bool
connection_done r s = member s.conn r.done

abbrev pub is_terminal : SessionState → Bool
is_terminal terminal = true
is_terminal _ = false

abbrev pub is_active : SessionState → Bool
is_active active = true
is_active _ = false

abbrev pub is_provisional : SessionState → Bool
is_provisional provisional = true
is_provisional _ = false

abbrev pub is_ephemeral : SessionMode → Bool
is_ephemeral ephemeral = true
is_ephemeral delegated = false

abbrev pub set_session : ℕ → Session → Registry → Registry
set_session h s r = record r { sessions = λ j. if h == j then some s else r.sessions j }

-- The outcomes of `reserve`.
pub data Reserved : Type 0 where
  granted one_attempt limit_reached collision still_attached : Reserved

-- The check of `reserve` on the session that has the alias.
unfoldable pub alias_free : Registry → Session → Session → Reserved
alias_free r s old =
    if is_ephemeral s.mode && (not (old.spki =? s.spki) || not (old.hostname =? s.hostname))
    then collision
    else if not (is_terminal old.state) && not (connection_done r old)
    then still_attached
    else granted

unfoldable pub held_alias : Registry → Session → Option ℕ → Reserved
held_alias r s none = granted
held_alias r s (some h) = elim (r.sessions h) [ none ↦ granted | some old ↦ alias_free r s old ]

-- The alias is stored if it was free.
unfoldable pub store_alias : Reserved → ℕ → Session → Registry → Registry
store_alias granted h s r = record r {
  by_alias = (s.alias, h) ∷ without s.alias r.by_alias;
  opened = h ∷ r.opened;
}
store_alias _ h s r = r

-- The session as a new object, which occupies its connection.
unfoldable pub admitted : Session → Registry → Registry
admitted s r = record r {
  sessions = λ j. if r.next == j then some s else r.sessions j;
  next = suc r.next;
  by_conn = (s.conn, r.next) ∷ without s.conn r.by_conn;
}

-- What `reserve` does, from the session that occupies the connection on.
unfoldable pub reserve_from : Option ℕ → Session → Registry → Registry × Reserved
reserve_from (some h) s r = (r, one_attempt)
reserve_from none s r =
    if leb max_sessions (length r.by_conn)
    then (r, limit_reached)
    else let outcome = held_alias r s (find s.alias r.by_alias) in
      (store_alias outcome r.next s (admitted s r), outcome)

-- reserve
unfoldable pub reserve : Session → Registry → Registry × Reserved
reserve s r = reserve_from (find s.conn r.by_conn) s r

-- activate, at a time and with a context that is cancelled or not.
unfoldable pub may_activate : Registry → Bool → ℕ → ℕ → Session → Bool
may_activate r cancelled now until s =
    is_provisional s.state
    && not (connection_done r s)
    && not cancelled
    && (is_ephemeral s.mode || ltb now until)

unfoldable pub activate : Bool → ℕ → ℕ → ℕ → Session → Registry → Registry
activate cancelled now until h s r =
    if may_activate r cancelled now until s
    then set_session h (record s { state = active; authorized_until = until }) r
    else r

-- fail and close, up to the end of the connection.
unfoldable pub terminate : ℕ → Session → Registry → Registry
terminate h s r = set_session h (record s { state = terminal }) r

-- What OpenDelegatedSession writes into the session once it has read the grant.
unfoldable pub identify : Bytes → Bytes → Option ℕ → ℕ → Session → Registry → Registry
identify hostname owner expiry h s r =
    set_session h (record s { hostname = hostname; owner = owner; grant_expiry = expiry }) r

abbrev pub earlier : ℕ → ℕ → ℕ
earlier a b = if ltb a b then a else b

-- authorizationDeadline
unfoldable pub authorization_deadline : ℕ → Option ℕ → Session → ℕ
authorization_deadline start none s = earlier s.cert_not_after (start + revalidate_grace)
authorization_deadline start (some expiry) s =
    earlier s.cert_not_after (earlier expiry (start + revalidate_grace))

-- The time that a session is activated until: an ephemeral one has none.
unfoldable pub activation_until : ℕ → Session → ℕ
activation_until start s =
    if is_ephemeral s.mode then 0 else authorization_deadline start s.grant_expiry s

-- extend
unfoldable pub extend : ℕ → ℕ → Option ℕ → ℕ → Session → Registry → Registry
extend now start expiry h s r =
    let until = authorization_deadline start expiry s in
    if is_active s.state && ltb now s.authorized_until && ltb s.authorized_until until
    then set_session h (record s { authorized_until = until }) r
    else r

-- The entry of a key is deleted if it is that of the session.
unfoldable pub drop_found : {K : Type 0} ⦃e : Eq K⦄ → K → ℕ → List (K × ℕ) → Option ℕ → List (K × ℕ)
drop_found k h m none = m
drop_found k h m (some current) = if current == h then without k m else m

unfoldable pub drop_entry : {K : Type 0} ⦃e : Eq K⦄ → K → ℕ → List (K × ℕ) → List (K × ℕ)
unfolding drop_found
drop_entry k h m = drop_found k h m (find k m)

-- The second half of `watch`, under the lock of the registry.
unfoldable pub forget : ℕ → Session → Registry → Registry
forget h s r = record r {
  by_alias = drop_entry s.alias h r.by_alias;
  by_conn = drop_entry s.conn h r.by_conn;
}

-- The checks of `dial` on the session that it finds.
unfoldable pub may_dial : Registry → ℕ → Bytes → Session → Bool
may_dial r now hostname s =
    is_active s.state
    && (s.hostname =? hostname)
    && not (connection_done r s)
    && (is_ephemeral s.mode || ltb now s.authorized_until)

unfoldable pub dial_session : Registry → ℕ → Bytes → ℕ → Option Session → Option ℕ
dial_session r now hostname h none = none
dial_session r now hostname h (some s) = if may_dial r now hostname s then some h else none

unfoldable pub dial_at : Registry → ℕ → Bytes → Option ℕ → Option ℕ
dial_at r now hostname none = none
dial_at r now hostname (some h) = dial_session r now hostname h (r.sessions h)

-- dial, up to the opening of the stream: the session at which it opens one.
unfoldable pub dial : ℕ → Bytes → Bytes → Registry → Option ℕ
dial now alias hostname r = dial_at r now hostname (find alias r.by_alias)

-- What the goroutines of the server, and the network, may do next.
pub data Step (r : Registry) : Registry → Type 0 where
  reserves : (s : Session) → s.state ≡ provisional → Step r (reserve s r).0
  identifies :
      (h : ℕ) (s : Session) (hostname owner : Bytes) (expiry : Option ℕ)
      → r.sessions h ≡ some s
      → s.state ≢ active
      → Step r (identify hostname owner expiry h s r)
  activates :
      (h : ℕ) (s : Session) (cancelled : Bool) (now start : ℕ)
      → r.sessions h ≡ some s
      → member h r.opened ≡ true
      → Step r (activate cancelled now (activation_until start s) h s r)
  terminates : (h : ℕ) (s : Session) → r.sessions h ≡ some s → Step r (terminate h s r)
  extends :
      (h : ℕ) (s : Session) (now start : ℕ)
      → r.sessions h ≡ some s
      → Step r (extend now start s.grant_expiry h s r)
  finishes : (conn : ℕ) → Step r (record r { done = conn ∷ r.done })
  forgets :
      (h : ℕ) (s : Session)
      → r.sessions h ≡ some s
      → s.state ≡ terminal
      → connection_done r s ≡ true
      → Step r (forget h s r)

pub data Reach (r : Registry) : Registry → Type 0 where
  here : Reach r r
  next_step : {s t : Registry} → Reach r s → Step s t → Reach r t
