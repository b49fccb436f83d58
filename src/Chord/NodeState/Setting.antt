-- ===== src/Chord/NodeState/Setting.antt =====
-- chord/node_state.go: Set under contention, and the history of changes.
use native.Mathlib.Numerals.{add-one}
use specter.Prelude.{
  ℕ, suc, ◌+◌, ◌/◌, ◌%◌, ◌^◌, ◌<◌, ◌≡◌, inl, inr, sym, ap, true, List, [], ◌∷◌, arith, ◌==◌, ==_iff,
  All, Bool-cases,
}
use specter.Chord.NodeState.{
  State, NodeState, to_code, pack, get, swap_from, transition, transitions, set_state,
}
use specter.Chord.NodeState.Interference.{pack-parts, get-pack, pack_index, to_code-of_code}

get-swap_from :
    (curr : ℕ) (s : NodeState) (exp nxt : State)
    → to_code nxt < 16
    → (swap_from curr s exp nxt).1.1 ≡ true
    → get (swap_from curr s exp nxt).0 ≡ nxt
unfolding swap_from get
get-swap_from curr s exp nxt k h = ground (arith, get-pack (curr / 16 + 1) nxt k)

quiet_round : (s : NodeState) → s.word < 2 ^ 64 → s.word ≡ pack (s.word / 16) (get s)
unfolding pack get
quiet_round s w = omega (arith, to_code-of_code (s.word % 16))

get_set_quiet :
    (s : NodeState) (val : State)
    → to_code val < 16
    → s.word < 2 ^ 64
    → get (transition s (get s) val).0 ≡ val
unfolding transition swap_from
get_set_quiet s val k w =
    rw ((==_iff _ _).1 (quiet_round s w)) (unfold get in get-pack (s.word / 16 + 1) val k)

-- A 64-bit word is kept by the calls of others.
swap_from-word :
    (curr : ℕ) (s : NodeState) (exp nxt : State)
    → to_code nxt < 16
    → s.word < 2 ^ 64
    → (swap_from curr s exp nxt).0.word < 2 ^ 64
unfolding swap_from
swap_from-word curr s exp nxt k w = ground (arith, pack-parts (curr / 16 + 1) nxt k)

transitions-word :
    (s : NodeState) (calls : List (State × State))
    → All (λ c. to_code c.1 < 16) calls
    → s.word < 2 ^ 64
    → (transitions s calls).word < 2 ^ 64
unfolding transitions
transitions-word s [] h w = w
transitions-word s ((exp, nxt) ∷ rest) h w =
    transitions-word (transition s exp nxt).0 rest h.1
      (unfold transition in swap_from-word s.word s exp nxt h.0 w)

-- However the calls of others fall between its steps, Set ends with the node in the wanted
-- state; for a 64-bit word and states of four bits.
pub get-set_state :
    (s : NodeState) (val : State) (rounds : List (List (State × State) × List (State × State)))
    → to_code val < 16
    → s.word < 2 ^ 64
    → All (λ r. All (λ c. to_code c.1 < 16) r.0 × All (λ c. to_code c.1 < 16) r.1) rounds
    → get (set_state s val rounds) ≡ val
unfolding set_state
get-set_state s val [] k w h = get_set_quiet s val k w
get-set_state s val ((before, between_) ∷ rest) k w h =
    elim (Bool-cases
      (swap_from (transitions s before).word (transitions (transitions s before) between_) (get s)
        val).1.1) [
          | inl e ↦ rw e (get-swap_from _ _ _ val k e)
          | inr e ↦ rw e (
              get-set_state
                (swap_from (transitions s before).word (transitions (transitions s before) between_)
                  (get s) val).0
                val rest k
                (swap_from-word _ _ (get s) val k
                  (transitions-word _ between_ h.0.1 (transitions-word s before h.0.0 w)))
                h.1)
        ]

-- The stores that the history holds are numbered down from the index of the word, without gaps.
abbrev Numbered : List (ℕ × State) → ℕ → Type 0
Numbered [] n = n ≡ 0
Numbered ((i, s) ∷ rest) n = (n ≡ suc i) × Numbered rest i

abbrev Latest : List (ℕ × State) → State → Type 0
Latest [] s = ⊥
Latest ((i, x) ∷ rest) s = x ≡ s

-- The history has one entry for each value of the counter, and the newest is the state.
pub record IsRecorded (s : NodeState) : Type 0 where
  pub numbered : Numbered s.stores (suc (s.word / 16))
  pub latest : Latest s.stores (get s)

-- Each transition to a state of four bits, made or refused, keeps the history numbered without
-- gaps down from the index of the word and ending with the state, below 2^60 changes.
pub transition-IsRecorded :
    (s : NodeState) (exp nxt : State)
    → to_code nxt < 16
    → s.word / 16 + 1 < 2 ^ 60
    → IsRecorded s
    → IsRecorded (transition s exp nxt).0
transition-IsRecorded s exp nxt k b r = elim (Bool-cases (s.word == pack (s.word / 16) exp)) [
  | inl e ↦
      unfold transition swap_from in
      rw e (record {
        numbered = (
          ap suc (pack_index (s.word / 16 + 1) nxt k b),
          rw (← add-one (s.word / 16)) at r.numbered,
        );
        latest = sym (unfold get in get-pack (s.word / 16 + 1) nxt k);
      })
  | inr e ↦ unfold transition swap_from in rw e r
]

pub transition-word :
    (s : NodeState) (exp nxt : State)
    → to_code nxt < 16
    → s.word < 2 ^ 64
    → (transition s exp nxt).0.word < 2 ^ 64
unfolding transition
transition-word s exp nxt k w = swap_from-word s.word s exp nxt k w
