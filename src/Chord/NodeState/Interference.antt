-- ===== src/Chord/NodeState/Interference.antt =====
-- chord/node_state.go: Transition where others change the state between its steps.
use specter.Prelude.{
  ℕ, zero, suc, ◌+◌, ◌/◌, ◌%◌, ◌^◌, ◌<◌, ◌≡◌, ◌≢◌, ◌⊎◌, inl, inr, refl, sym, subst, ap, Bool, true,
  false, List, [], ◌∷◌, arith, length, ◌==◌, ==_iff, ◌∙◌, All, Bool-cases,
}
use specter.Chord.NodeState.{
  State, NodeState, to_code, of_code, pack, get, swap_from, transition, transitions, inactive,
}

of_code-to_code : (s : State) → of_code (to_code s) ≡ s
unfolding of_code to_code
of_code-to_code inactive = refl
of_code-to_code _ = refl

pub to_code-of_code : (n : ℕ) → to_code (of_code n) ≡ n
unfolding of_code to_code
to_code-of_code zero = refl
to_code-of_code (suc zero) = refl
to_code-of_code (suc (suc zero)) = refl
to_code-of_code (suc (suc (suc zero))) = refl
to_code-of_code (suc (suc (suc (suc zero)))) = refl
to_code-of_code (suc (suc (suc (suc (suc zero))))) = refl
to_code-of_code (suc (suc (suc (suc (suc (suc n)))))) = refl

-- The two reads of a word that was packed from a small index and a state of four bits.
pub pack-parts :
    (i : ℕ) (s : State) → to_code s < 16 → (pack i s % 16 ≡ to_code s) × (pack i s < 2 ^ 64)
unfolding pack
pack-parts i s h = omega arith

pub pack_index : (i : ℕ) (s : State) → to_code s < 16 → i < 2 ^ 60 → pack i s / 16 ≡ i
unfolding pack
pack_index i s h k = omega arith

-- The word equals the expected one exactly when the state does.
word_eq :
    (w : ℕ) (exp : State)
    → w < 2 ^ 64
    → to_code exp < 16
    → of_code (w % 16) ≡ exp
    → w ≡ pack (w / 16) exp
unfolding pack
word_eq w exp h k e = omega (arith, ap to_code e, to_code-of_code (w % 16))

-- What Transition promises when nothing runs between its two steps.
pub data Transitioned (s : NodeState) (exp nxt : State) (t : NodeState) (seen : State)
    : Bool → Type 0 where
  moved : get s ≡ exp → get t ≡ nxt → seen ≡ nxt → Transitioned s exp nxt t seen true
  refused : get s ≢ exp → t ≡ s → seen ≡ get s → Transitioned s exp nxt t seen false

pub get-pack : (i : ℕ) (s : State) → to_code s < 16 → of_code (pack i s % 16) ≡ s
get-pack i s h = rw ((pack-parts i s h).0) (of_code-to_code s)

-- Transition moves the state, and reports the new one, when it is the expected one; otherwise it
-- changes nothing and reports the state; for a 64-bit word and states of four bits.
pub transition-Transitioned :
    (s : NodeState) (exp nxt : State)
    → s.word < 2 ^ 64
    → to_code exp < 16
    → to_code nxt < 16
    → Transitioned s exp nxt
        (transition s exp nxt).0
        (transition s exp nxt).1.0
        (transition s exp nxt).1.1
transition-Transitioned s exp nxt w h k = elim (Bool-cases (s.word == pack (s.word / 16) exp)) [
  | inl e ↦
      unfold transition get in
      rw e (
        moved (ap (λ w. of_code (w % 16)) ((==_iff _ _).0 e) ∙ get-pack _ exp h) (get-pack _ nxt k)
          refl)
  | inr e ↦
      unfold transition get in
      rw e (refused (λ g. cc (e, (==_iff _ _).1 (word_eq s.word exp w h g))) refl refl)
]

-- After a change by another goroutine, a compare-and-swap from an older Load fails, also when the
-- state is back at what it was.
pub swap_from_stale :
    (curr : ℕ) (s : NodeState) (exp nxt : State)
    → to_code exp < 16
    → curr < 2 ^ 64
    → curr / 16 < s.word / 16
    → swap_from curr s exp nxt ≡ (s, (of_code (curr % 16), false))
unfolding swap_from pack
swap_from_stale curr s exp nxt h k lt = ground arith

abbrev IsSmall : State × State → Type 0
IsSmall c = (to_code c.0 < 16) × (to_code c.1 < 16)

transition_one :
    (s : NodeState) (exp nxt : State)
    → to_code nxt < 16
    → s.word / 16 + 1 < 2 ^ 60
    → ((transition s exp nxt).0 ≡ s) ⊎ ((transition s exp nxt).0.word / 16 ≡ s.word / 16 + 1)
transition_one s exp nxt k b = elim (Bool-cases (s.word == pack (s.word / 16) exp)) [
  | inl e ↦ unfold transition in rw e (inr (pack_index (s.word / 16 + 1) nxt k b))
  | inr e ↦ unfold transition in rw e (inl refl)
]

transitions_index :
    (s : NodeState) (calls : List (State × State))
    → All IsSmall calls
    → s.word / 16 + length calls < 2 ^ 60
    → (transitions s calls ≡ s) ⊎ (s.word / 16 < (transitions s calls).word / 16)
unfolding transitions
transitions_index s [] h b = inl refl
transitions_index s ((exp, nxt) ∷ rest) h b = elim (transition_one s exp nxt h.0.1 (omega arith)) [
  | inl same ↦
      subst (λ t. (transitions t rest ≡ s) ⊎ (s.word / 16 < (transitions t rest).word / 16))
        (sym same) (transitions_index s rest h.1 (omega arith))
  | inr up ↦ elim (transitions_index (transition s exp nxt).0 rest h.1 (omega arith)) [
    | inl same ↦ inr (omega (arith, ap (λ t. t.word / 16) same))
    | inr more ↦ inr (omega arith)
  ]
]

-- Between the Load and the compare-and-swap of a Transition, either the calls of others left the
-- state as it was, or the compare-and-swap fails, changes nothing and reports the state that was
-- loaded; for states of four bits, a 64-bit word, and fewer than 2^60 changes in all.
pub swap_from_no_aba :
    (s : NodeState) (calls : List (State × State)) (exp nxt : State)
    → to_code exp < 16
    → s.word < 2 ^ 64
    → All IsSmall calls
    → s.word / 16 + length calls < 2 ^ 60
    → (transitions s calls ≡ s)
      ⊎ (swap_from s.word (transitions s calls) exp nxt ≡ (transitions s calls, (get s, false)))
swap_from_no_aba s calls exp nxt h w small b = elim (transitions_index s calls small b) [
  | inl same ↦ inl same
  | inr up ↦ inr (unfold get in swap_from_stale s.word (transitions s calls) exp nxt h w up)
]

-- A transition that reports success was made at the expected state.
pub Transitioned-moved :
    {s t : NodeState} {exp nxt seen : State}
    → Transitioned s exp nxt t seen true
    → (get s ≡ exp) × (get t ≡ nxt)
Transitioned-moved (moved e f g) = (e, f)

pub Transitioned-refused :
    {s t : NodeState} {exp nxt seen : State} → Transitioned s exp nxt t seen false → get s ≢ exp
Transitioned-refused (refused e f g) = e
