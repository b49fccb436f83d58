-- ===== src/Tun/Text.antt =====
-- Texts as bytes: slices and prefixes, as Go's strings and slices have them.
use Prim.Native.Char.{code}
use Prim.Native.String.{String}
use specter.Prelude.{
  ℕ, zero, suc, ◌<◌, ◌≤◌, ◌≡◌, refl, Option, none, some, List, [], ◌∷◌, ◌++◌, Bytes, length, All,
  ◌==◌, if◌then◌else◌, arith,
}

-- The bytes of an ASCII text.
abbrev pub codes : String → Bytes
codes String.[] = []
codes (String.◌∷◌ c s) = code c ∷ codes s

abbrev pub IsByte : ℕ → Type 0
IsByte b = b < 256

-- s[:n] and s[n:]
unfoldable pub take : {A : Type 0} → ℕ → List A → List A
take zero bs = []
take (suc n) [] = []
take (suc n) (b ∷ bs) = b ∷ take n bs

unfoldable pub drop : {A : Type 0} → ℕ → List A → List A
drop zero bs = bs
drop (suc n) [] = []
drop (suc n) (b ∷ bs) = drop n bs

-- strings.HasPrefix, with what comes behind the prefix.
unfoldable pub strip : Bytes → Bytes → Option Bytes
strip [] s = some s
strip (p ∷ ps) [] = none
strip (p ∷ ps) (c ∷ s) = if p == c then strip ps s else none

pub strip-append : (p s : Bytes) → strip p (p ++ s) ≡ some s
unfolding strip
strip-append [] s = refl
strip-append (p ∷ ps) s = ground (arith, strip-append ps s)

pub strip-eq_some : (p t s : Bytes) → strip p t ≡ some s → t ≡ p ++ s
unfolding strip
strip-eq_some [] t s h = cc
strip-eq_some (p ∷ ps) [] s h = cc
strip-eq_some (p ∷ ps) (c ∷ t) s h = ground (arith, strip-eq_some ps t s)

pub length-take : (n : ℕ) (bs : Bytes) → n ≤ length bs → length (take n bs) ≡ n
unfolding take
length-take zero bs h = refl
length-take (suc n) [] h = absurd (omega arith)
length-take (suc n) (b ∷ bs) h = omega (arith, length-take n bs)

pub All-take : (n : ℕ) (bs : Bytes) → All IsByte bs → All IsByte (take n bs)
unfolding take
All-take zero bs h = tt
All-take (suc n) [] h = tt
All-take (suc n) (b ∷ bs) h = (h.0, All-take n bs h.1)
