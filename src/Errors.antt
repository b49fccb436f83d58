-- ===== src/Errors.antt =====
-- spec/chord/errors.go: the errors that nodes return, which of them a caller may retry, and the
-- mapper that finds an error again after an RPC has kept only its text.
pub mod Rpc
use Prim.Native.String.{String}
use text.Mathlib.Text.{◌==◌ as str_eq}
use specter.Prelude.{ℕ, Bool, true, false, Option, none, some, List, [], ◌∷◌, ◌==◌, if◌then◌else◌}

pub data ErrorName : Type 0 where
  join_invalid_state join_transfer_failure join_invalid_successor : ErrorName
  leave_invalid_state leave_transfer_failure : ErrorName
  kv_stale_ownership kv_pending_transfer : ErrorName
  node_gone node_not_started node_no_successor node_nil duplicate_joiner_id : ErrorName
  kv_simple_conflict kv_prefix_conflict : ErrorName
  kv_lease_conflict kv_lease_expired kv_lease_invalid_ttl kv_hash_fn_changed : ErrorName

-- An `error` value: a variable of errors.go, context.DeadlineExceeded, a twirp error with its
-- message, another error with its text, and one that wraps another by `%w`. `panics` stands for no
-- error value: the goroutine stops on a nil reference.
pub data Error : Type 0 where
  chord : ErrorName → Error
  deadline_exceeded : Error
  twirp : String → Error
  plain : String → Error
  wrapped : String → Error → Error
  panics : Error

-- A Go pair of a value and an error.
pub data Result {ℓ} (V : Type ℓ) : Type ℓ where
  err : Error → Result V
  ok : V → Result V

infixl 5 ◌>>=◌
abbrev pub ◌>>=◌ {ℓ κ} : {V : Type ℓ} {W : Type κ} → Result V → (V → Result W) → Result W
err e >>= rest = err e
ok v >>= rest = rest v

infixl 5 ◌>>◌
abbrev pub ◌>>◌ {ℓ} : {V : Type ℓ} → Result (Unit {0}) → Result V → Result V
err e >> rest = err e
ok tt >> rest = rest

-- `if err != nil { return err }`
abbrev pub check : Option Error → Result (Unit {0})
check none = ok tt
check (some e) = err e

record Definition : Type 0 where
  name : ErrorName
  msg : String
  retryable : Bool

define : ErrorName → String → Bool → Definition
define name msg retryable = record { name = name; msg = msg; retryable = retryable }

-- The calls of `errorDef`, in their order.
definitions : List Definition
unfolding define
definitions =
    define join_invalid_state "chord/membership: node cannot handle join request at the moment" true
    ∷ define join_transfer_failure "chord/membership: failed to transfer keys to joiner node" true
    ∷ define join_invalid_successor
        "chord/membership: join request was routed to the wrong successor node" true
    ∷ define leave_invalid_state "chord/membership: node cannot handle leave request at the moment"
        true
    ∷ define leave_transfer_failure "chord/membership: failed to transfer keys to successor node"
        true
    ∷ define kv_stale_ownership
        "chord/kv: processing node no longer has ownership over requested key" true
    ∷ define kv_pending_transfer "chord/kv: kv transfer inprogress, state may be outdated" true
    ∷ define node_gone "chord: node is not part of the chord ring" false
    ∷ define node_not_started "chord: node is not running" false
    ∷ define node_no_successor "chord: node has no successor, possibly invalid chord ring" false
    ∷ define node_nil "chord: node cannot be nil" false
    ∷ define duplicate_joiner_id "chord/membership: joining node has duplicate ID as its successor"
        false
    ∷ define kv_simple_conflict "chord/kv: simple key was concurrently modified" false
    ∷ define kv_prefix_conflict "chord/kv: child already exists under prefix" false
    ∷ define kv_lease_conflict
        "chord/kv: lease has not expired or was acquired by a different requester" false
    ∷ define kv_lease_expired "chord/kv: lease has expired with the given token" false
    ∷ define kv_lease_invalid_ttl "chord/kv: lease ttl must be greater than a second" false
    ∷ define kv_hash_fn_changed "chord/kv: calculated hash is different from storage" false
    ∷ []

-- Each variable is its own pointer; this numbers them, to compare two.
abbrev name_code : ErrorName → ℕ
name_code join_invalid_state = 0
name_code join_transfer_failure = 1
name_code join_invalid_successor = 2
name_code leave_invalid_state = 3
name_code leave_transfer_failure = 4
name_code kv_stale_ownership = 5
name_code kv_pending_transfer = 6
name_code node_gone = 7
name_code node_not_started = 8
name_code node_no_successor = 9
name_code node_nil = 10
name_code duplicate_joiner_id = 11
name_code kv_simple_conflict = 12
name_code kv_prefix_conflict = 13
name_code kv_lease_conflict = 14
name_code kv_lease_expired = 15
name_code kv_lease_invalid_ttl = 16
name_code kv_hash_fn_changed = 17

-- The text of a variable: what its definition was given.
msg_in : List Definition → ErrorName → String
msg_in [] n = ""
msg_in (d ∷ ds) n =
    let rest = msg_in ds n in if name_code d.name == name_code n then d.msg else rest

-- err.Error()
pub error_text : Error → String
unfolding msg_in definitions
error_text (chord n) = msg_in definitions n
error_text deadline_exceeded = "context deadline exceeded"
error_text (twirp msg) = msg
error_text (plain msg) = msg
error_text (wrapped msg e) = msg
error_text panics = "invalid memory address or nil pointer dereference"

-- A lookup in errorStrMap: a later definition of one text would have replaced an earlier one.
error_str_map : List Definition → String → Option ErrorName
error_str_map [] s = none
error_str_map (d ∷ ds) s = elim (error_str_map ds s) [
  | some n ↦ some n
  | none ↦ if str_eq d.msg s then some d.name else none
]

mapped_or : Error → Option ErrorName → Error
mapped_or e none = e
mapped_or e (some n) = chord n

lookup_error : String → Option ErrorName
unfolding error_str_map definitions
lookup_error = error_str_map definitions

-- ErrorMapper. Of a twirp error it reads Msg(), of any other Error().
pub error_mapper : Option Error → Option Error
unfolding mapped_or
error_mapper none = none
error_mapper (some e) = some (mapped_or e (lookup_error (error_text e)))

-- errors.Is
error_is : Error → Error → Bool
error_is (chord a) (chord b) = name_code a == name_code b
error_is deadline_exceeded deadline_exceeded = true
error_is (wrapped msg e) target = error_is e target
error_is _ _ = false

retryable_defs : List Definition → List Error
retryable_defs [] = []
retryable_defs (d ∷ ds) =
    if d.retryable then chord d.name ∷ retryable_defs ds else retryable_defs ds

-- retryableErrs, after the calls of `errorDef`.
retryable_errs : List Error
unfolding retryable_defs definitions define
retryable_errs = deadline_exceeded ∷ retryable_defs definitions

is_any : Error → List Error → Bool
is_any e [] = false
is_any e (t ∷ ts) = let rest = is_any e ts in if error_is e t then true else rest

-- ErrorIsRetryable
pub error_is_retryable : Error → Bool
unfolding is_any error_is retryable_errs
error_is_retryable e = is_any e retryable_errs
