-- ===== src/Errors/Rpc.antt =====
-- spec/chord/errors.go: ErrorMapper on errors of which an RPC has kept the text.
use specter.Prelude.{◌≡◌, refl, Option, none, some, inl, inr, Option-cases}
use specter.Errors.{
  Error, ErrorName, chord, twirp, join_invalid_state, lookup_error, error_text, error_mapper,
}

-- Each error variable of the package comes back from its text in an RPC error as itself.
error_mapper_twirp :
    (n : ErrorName) → error_mapper (some (twirp (error_text (chord n)))) ≡ some (chord n)
unfolding error_mapper error_text lookup_error
error_mapper_twirp join_invalid_state = refl
error_mapper_twirp _ = refl

error_mapper_chord : (n : ErrorName) → error_mapper (some (chord n)) ≡ some (chord n)
unfolding error_mapper error_text lookup_error
error_mapper_chord join_invalid_state = refl
error_mapper_chord _ = refl

-- To map an error a second time changes nothing, whatever the error.
pub error_mapper_idem : (e : Option Error) → error_mapper (error_mapper e) ≡ error_mapper e
error_mapper_idem none = unfold error_mapper in refl
error_mapper_idem (some e) = elim (Option-cases (lookup_error (error_text e))) [
  | inl missing ↦ unfold error_mapper in rw (missing) (rw (missing))
  | inr (n, found) ↦ unfold error_mapper in rw found (unfold error_mapper in error_mapper_chord n)
]
