-- ===== src/Tun/Kv.antt =====
-- The keys of the ring as the tunnel server calls them (chord.KV). What a call does to its key is
-- what the stores of the ring do; a call may be refused on its way, or its answer be lost.
pub mod Results
use specter.Prelude.{
  ℕ, suc, ◌+◌, Bool, true, false, not, ◌≡◌, refl, Option, none, some, List, [], ◌∷◌, ◌++◌, Bytes,
  bytes_eq, ◌=?◌, ◌==◌, if◌then◌else◌, arith,
}
use specter.Prelude.Int.{ℤ}
use specter.Errors.{
  Error, Result, ok, err, chord, kv_prefix_conflict, kv_lease_conflict, kv_lease_expired,
  kv_lease_invalid_ttl,
}
use specter.Containers.{member}
use specter.Containers.Assoc.{drop}
use specter.Kv.Lease.{duration_guard}
use specter.Kv.Memory.Leases.{acquire_check}

-- The simple value, the children and the lease of a key. An empty value and none are alike to the
-- callers, who look at its length.
pub record Entry : Type 0 where
  pub simple : Bytes
  pub children : List Bytes
  pub lease : ℕ

abbrev pub Keyspace : Type 0
Keyspace = Bytes → Entry

abbrev pub set_entry : Bytes → Entry → Keyspace → Keyspace
set_entry key e s j = if key =? j then e else s j

-- The keys, and how many calls there were.
pub record World : Type 0 where
  pub keys : Keyspace
  pub calls : ℕ

pub data Fate : Type 0 where
  answered : Fate
  refused lost : Error → Fate

-- What becomes of each call, and the time at the node that serves it.
pub record Network : Type 0 where
  pub fate : ℕ → Fate
  pub clock : ℕ → ℤ

-- A handler, or a part of one.
abbrev pub M : Type 0 → Type 0
M A = World → World × Result A

abbrev pub Operation : Type 0 → Type 0
Operation A = ℤ → Entry → Entry × Result A

module _ {A : Type 0} where
  abbrev pub pure : A → M A
  pure a w = (w, ok a)

  abbrev pub fail : Error → M A
  fail e w = (w, err e)

  unfoldable pub outcome : Fate → Bytes → World → Entry × Result A → World × Result A
  outcome answered key w (e, r) = (record { keys = set_entry key e w.keys; calls = suc w.calls }, r)
  outcome (refused failure) key w (e, r) = (record w { calls = suc w.calls }, err failure)
  outcome (lost failure) key w (e, r) =
      (record { keys = set_entry key e w.keys; calls = suc w.calls }, err failure)

unfoldable pub then_ : {A B : Type 0} → World × Result A → (A → M B) → World × Result B
then_ (w, err e) f = (w, err e)
then_ (w, ok a) f = f a w

infixl 5 ◌>>=◌ ◌>>◌
abbrev pub ◌>>=◌ : {A B : Type 0} → M A → (A → M B) → M B
◌>>=◌ m f w = then_ (m w) f

abbrev pub ◌>>◌ : {B : Type 0} → M (Unit {0}) → M B → M B
m >> k = m >>= λ _. k

-- The operations at the key: kv/memory and kv/sqlite3 do the same.
abbrev pub put_at : Bytes → Operation (Unit {0})
put_at value now e = (record e { simple = value }, ok tt)

abbrev pub get_at : Operation Bytes
get_at now e = (e, ok e.simple)

abbrev pub append_at : Bytes → Operation (Unit {0})
append_at child now e =
    if member child e.children
    then (e, err (chord kv_prefix_conflict))
    else (record e { children = child ∷ e.children }, ok tt)

abbrev pub remove_at : Bytes → Operation (Unit {0})
remove_at child now e = (record e { children = drop child e.children }, ok tt)

unfoldable pub grant_at : Entry → Result (ℕ × ℕ) → Entry × Result ℕ
grant_at e (err failure) = (e, err failure)
grant_at e (ok (curr, token)) = (record e { lease = token }, ok token)

unfoldable pub acquire_at : Option ℕ → Operation ℕ
acquire_at none now e = (e, err (chord kv_lease_invalid_ttl))
acquire_at (some ttl) now e = grant_at e (acquire_check e.lease ttl now)

unfoldable pub release_at : ℕ → Operation (Unit {0})
release_at token now e =
    if e.lease == token then (record e { lease = 0 }, ok tt) else (e, err (chord kv_lease_expired))

module _ ⦃n : Network⦄ where
  unfoldable pub call : {A : Type 0} → Bytes → Operation A → M A
  call key f w = outcome (n.fate w.calls) key w (f (n.clock w.calls) (w.keys key))

  abbrev pub put : Bytes → Bytes → M (Unit {0})
  put key value = call key (put_at value)

  abbrev pub get : Bytes → M Bytes
  get key = call key get_at

  abbrev pub delete : Bytes → M (Unit {0})
  delete key = call key (put_at [])

  abbrev pub prefix_append : Bytes → Bytes → M (Unit {0})
  prefix_append prefix child = call prefix (append_at child)

  abbrev pub prefix_list : Bytes → M (List Bytes)
  prefix_list prefix = call prefix (λ now e. (e, ok e.children))

  abbrev pub prefix_contains : Bytes → Bytes → M Bool
  prefix_contains prefix child = call prefix (λ now e. (e, ok (member child e.children)))

  abbrev pub prefix_remove : Bytes → Bytes → M (Unit {0})
  prefix_remove prefix child = call prefix (remove_at child)

  abbrev pub acquire : Bytes → ℤ → M ℕ
  acquire lease ttl = call lease (acquire_at (duration_guard ttl))

  abbrev pub release : Bytes → ℕ → M (Unit {0})
  release lease token = call lease (release_at token)

  -- `defer s.Chord.Release(ctx, leaseKey, lease)` around what follows an Acquire.
  unfoldable pub released : {A : Type 0} → Bytes → ℕ → World × Result A → World × Result A
  released lease token (w, r) = ((release lease token w).0, r)

  unfoldable pub under_lease :
      {A : Type 0} → Bytes → (Error → Error) → M A → World × Result ℕ → World × Result A
  under_lease lease wrap body (w, err e) = (w, err (wrap e))
  under_lease lease wrap body (w, ok token) = released lease token (body w)

  unfoldable pub with_lease : {A : Type 0} → Bytes → ℤ → (Error → Error) → M A → M A
  with_lease lease ttl wrap body w = under_lease lease wrap body (acquire lease ttl w)

-- promise.All: every job runs; the jobs of the handlers touch keys of their own, so they run here
-- one after the other.
unfoldable pub all : {A : Type 0} → List (M A) → World → World × List (Result A)
all [] w = (w, [])
all (job ∷ jobs) w = let (w', r) = job w in let (w'', rs) = all jobs w' in (w'', r ∷ rs)

unfoldable pub cons_value : {A : Type 0} → A → Result (List A) → Result (List A)
cons_value a (err e) = err e
cons_value a (ok rest) = ok (a ∷ rest)

-- The values, unless one of the jobs failed.
unfoldable pub values : {A : Type 0} → List (Result A) → Result (List A)
values [] = ok []
values (err e ∷ rs) = err e
values (ok a ∷ rs) = cons_value a (values rs)
