-- ===== src/Tun/Label.antt =====
-- spec/tun/session.go: the label of an ephemeral session, which names its home node, and the alias
-- of a session. SHA-256 is a parameter.
pub mod RoundTrip
use specter.Prelude.{
  ℕ, zero, suc, ap, ◌+◌, ◌*◌, ◌/◌, ◌%◌, ◌^◌, ◌<◌, ◌≤◌, ◌≡◌, sym, ◌∙◌, refl, Bool, true, false, ◌&&◌,
  Option, none, some, [], ◌∷◌, ◌++◌, Bytes, length, length-append, All, ◌==◌, leb, ==_iff,
  if◌then◌else◌, Bool-cases, inl, inr, arith, bytes_eq, Option-cases,
}
use specter.Ring.{max_identifier}
use specter.Errors.{Result, ok, err, plain}
use specter.Tun.Text.{
  codes, IsByte, take, drop, strip, strip-append, strip-eq_some, length-take, All-take,
}
use specter.Tun.Hex

-- sha256.Sum256
pub record Sha : Type 0 where
  pub sum256 : Bytes → Bytes
  pub digest_length : (x : Bytes) → length (sum256 x) ≡ 32
  pub digest_bytes : (x : Bytes) → All IsByte (sum256 x)

abbrev pub session_alias_prefix : Bytes
session_alias_prefix = codes "session:"

abbrev pub ephemeral_label_prefix : Bytes
ephemeral_label_prefix = codes "e1-"

-- `lowerHex` of what is behind the prefix, for a text of the given length.
unfoldable pub behind : Bytes → ℕ → Bytes → Option Bytes
behind prefix size s = elim (strip prefix s) [
  | none ↦ none
  | some rest ↦ if (length s == size) && Hex.lower_hex rest then some rest else none
]

-- IsSessionAlias
unfoldable pub is_session_alias : Bytes → Bool
is_session_alias addr = elim (behind session_alias_prefix 40 addr) [ none ↦ false | some _ ↦ true ]

-- SessionAlias
unfoldable pub session_alias : Bytes → Bytes
session_alias inv = session_alias_prefix ++ Hex.encode inv

-- binary.BigEndian.PutUint64 and its last six bytes.
unfoldable pub encoded_home : ℕ → Bytes
encoded_home home =
    home / 2 ^ 40 % 256
    ∷ home / 2 ^ 32 % 256
    ∷ home / 2 ^ 24 % 256
    ∷ home / 2 ^ 16 % 256
    ∷ home / 2 ^ 8 % 256
    ∷ home % 256
    ∷ []

-- `home = home<<8 | uint64(b)` over six bytes, which stays within 64 bits.
unfoldable pub read_home : ℕ → Bytes → ℕ
read_home home [] = home
read_home home (b ∷ bs) = read_home (home * 256 + b) bs

-- The label with its inverse key.
unfoldable pub print_label : ℕ → Bytes → Bytes
print_label home inv = ephemeral_label_prefix ++ (Hex.encode (encoded_home home) ++ Hex.encode inv)

-- EphemeralLabel
unfoldable pub ephemeral_label : Sha → ℕ → Bytes → Result (Bytes × Bytes)
ephemeral_label sha home spki =
    if leb max_identifier home
    then err (plain "home ID exceeds 48 bits")
    else let inv =
        take 16 (sha.sum256 (codes "specter/ephemeral/v1" ++ (0 ∷ (encoded_home home ++ spki)))) in
      ok (print_label home inv, inv)

-- What ParseEphemeralLabel reads behind the prefix.
unfoldable pub read_label : Option Bytes → Option (ℕ × Bytes)
read_label none = none
read_label (some rest) = let raw = Hex.decode rest in some (read_home 0 (take 6 raw), drop 6 raw)

-- ParseEphemeralLabel
unfoldable pub parse_ephemeral_label : Bytes → Option (ℕ × Bytes)
parse_ephemeral_label label = read_label (behind ephemeral_label_prefix 47 label)
