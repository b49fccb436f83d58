-- ===== src/Tun/Hex.antt =====
-- encoding/hex as spec/tun uses it: two lower-case digits for a byte.
use specter.Prelude.{
  ℕ, zero, suc, ◌+◌, ◌-◌, ◌*◌, ◌/◌, ◌%◌, ◌<◌, Bool, true, ◌&&◌, ◌||◌, [], ◌∷◌, ◌≡◌, refl, Bytes,
  arith, leb, length, All, if◌then◌else◌, ltb,
}
use specter.Tun.Text.{IsByte}

unfoldable pub hex_digit : ℕ → ℕ
hex_digit n = if ltb n 10 then 48 + n else 87 + n

unfoldable pub hex_value : ℕ → ℕ
hex_value c = if leb c 57 then c - 48 else c - 87

-- hex.EncodeToString
unfoldable pub encode : Bytes → Bytes
encode [] = []
encode (b ∷ bs) = hex_digit (b / 16) ∷ hex_digit (b % 16) ∷ encode bs

-- hex.DecodeString, on lower-case digits: what comes before an odd one at the end.
unfoldable pub decode : Bytes → Bytes
decode [] = []
decode (c ∷ []) = []
decode (c ∷ d ∷ rest) = (16 * hex_value c + hex_value d) ∷ decode rest

unfoldable pub is_lower_hex : ℕ → Bool
is_lower_hex c = (leb 48 c && leb c 57) || (leb 97 c && leb c 102)

-- lowerHex
unfoldable pub lower_hex : Bytes → Bool
lower_hex [] = true
lower_hex (c ∷ cs) = is_lower_hex c && lower_hex cs

pub lower_hex-encode : (bs : Bytes) → All IsByte bs → lower_hex (encode bs) ≡ true
unfolding lower_hex encode is_lower_hex hex_digit
lower_hex-encode [] h = refl
lower_hex-encode (b ∷ bs) h = ground (arith, lower_hex-encode bs h.1)

pub length-encode : (bs : Bytes) → length (encode bs) ≡ 2 * length bs
unfolding encode
length-encode [] = omega arith
length-encode (b ∷ bs) = omega (arith, length-encode bs)

pub decode-encode : (bs : Bytes) → All IsByte bs → decode (encode bs) ≡ bs
unfolding decode encode hex_value hex_digit
decode-encode [] h = refl
decode-encode (b ∷ bs) h = ground (arith, decode-encode bs h.1)

digit-value :
    (c d : ℕ)
    → is_lower_hex c ≡ true
    → is_lower_hex d ≡ true
    → let b = 16 * hex_value c + hex_value d in
      (hex_digit (b / 16) ≡ c) × (hex_digit (b % 16) ≡ d) × (b < 256)
unfolding hex_value hex_digit is_lower_hex
digit-value c d hc hd = ground arith

and-cases : {a b c : Bool} → (a && (b && c)) ≡ true → (a ≡ true) × (b ≡ true) × (c ≡ true)
and-cases h = ground arith

-- The bytes that a text of digits stands for are bytes, and print as the text.
pub encode-decode :
    (k : ℕ) (cs : Bytes)
    → length cs ≡ 2 * k
    → lower_hex cs ≡ true
    → (encode (decode cs) ≡ cs) × All IsByte (decode cs) × (length (decode cs) ≡ k)
unfolding decode encode lower_hex
encode-decode k [] n h = (refl, tt, omega arith)
encode-decode k (c ∷ []) n h = absurd (omega arith)
encode-decode zero (c ∷ d ∷ cs) n h = absurd (omega arith)
encode-decode (suc k) (c ∷ d ∷ cs) n h =
    let (first, second, rest) = and-cases h in
    let (hi, lo, byte) = digit-value c d first second in
    let (same, bytes, count) = encode-decode k cs (omega arith) rest in
    (rw (hi, lo, same), (byte, bytes), omega arith)
