-- ===== src/Chord/Routing.antt =====
-- FindSuccessor of chord/local_chord.go across a network: each hop is a call of the same function
-- at the node that the reference leads to.
pub mod Termination
pub mod Ownership
use specter.Prelude.{ℕ, zero, suc, Option, none, some}
use specter.VNode.{VNode}
use specter.Errors.{Error, Result, err}
use specter.Chord.Node.{LocalNode}
use specter.Chord.Node.Lookup.{Decision, answer, forward, decide}

-- The node that a reference leads to, or the error of the call.
pub data Reached (S : Type 0) : Type 0 where
  here : LocalNode S → Reached S
  unreachable : Error → Reached S

abbrev pub World : Type 0 → Type 0
World S = VNode → Reached S

module _ {S : Type 0} where
  -- The lookup of a key that starts at a reference; `none` means that the fuel ran out.
  unfoldable pub route : ℕ → World S → VNode → ℕ → Option (Result (Option VNode))
  route zero w v key = none
  route (suc fuel) w v key = elim (w v) [
    | unreachable e ↦ some (err e)
    | here n ↦ elim (decide n key) [ answer r ↦ some r | forward next ↦ route fuel w next key ]
  ]
