-- ===== src/Tun/Label/RoundTrip.antt =====
-- The label of an ephemeral session and its parsing.
use specter.Prelude.{
  ℕ, zero, suc, ap, ◌+◌, ◌/◌, ◌%◌, ◌^◌, ◌<◌, ◌≡◌, sym, ◌∙◌, refl, true, Option, none, some, [], ◌∷◌,
  ◌++◌, Bytes, length, length-append, All, arith, bytes_eq, ◌↔◌,
}
use specter.Errors.{ok}
use specter.Tun.Text.{codes, IsByte, take, drop, strip-append, strip-eq_some, length-take, All-take}
use specter.Tun.Hex
use specter.Tun.Label.{
  Sha, ephemeral_label_prefix, behind, encoded_home, read_home, print_label, ephemeral_label,
  read_label, parse_ephemeral_label,
}

encode-append : (a b : Bytes) → Hex.encode (a ++ b) ≡ Hex.encode a ++ Hex.encode b
unfolding Hex.encode
encode-append [] b = refl
encode-append (x ∷ a) b = rw (encode-append a b)

encoded_home_bytes : (home : ℕ) → All IsByte (encoded_home home)
unfolding encoded_home
encoded_home_bytes home = omega arith

length-encoded_home : (home : ℕ) → length (encoded_home home) ≡ 6
unfolding encoded_home
length-encoded_home home = refl

read-encoded_home : (home : ℕ) → home < 2 ^ 48 → read_home 0 (encoded_home home) ≡ home
unfolding encoded_home read_home
read-encoded_home home h = omega arith

digits_of :
    (a b c d e f : ℕ)
    → a < 256
    → b < 256
    → c < 256
    → d < 256
    → e < 256
    → f < 256
    → let n = read_home 0 (a ∷ b ∷ c ∷ d ∷ e ∷ f ∷ []) in
      (n / 2 ^ 40 % 256 ≡ a)
      × (n / 2 ^ 32 % 256 ≡ b)
      × (n / 2 ^ 24 % 256 ≡ c)
      × (n / 2 ^ 16 % 256 ≡ d)
      × (n / 2 ^ 8 % 256 ≡ e)
      × (n % 256 ≡ f)
      × (n < 2 ^ 48)
unfolding read_home
digits_of a b c d e f ha hb hc hd he hf =
    (omega arith, omega arith, omega arith, omega arith, omega arith, omega arith, omega arith)

digits_list :
    {a b c d e f a' b' c' d' e' f' : ℕ}
    → a ≡ a'
    → b ≡ b'
    → c ≡ c'
    → d ≡ d'
    → e ≡ e'
    → f ≡ f'
    → ◌≡◌ {A = Bytes} (a ∷ b ∷ c ∷ d ∷ e ∷ f ∷ []) (a' ∷ b' ∷ c' ∷ d' ∷ e' ∷ f' ∷ [])
digits_list p q r s t u = cc

abbrev Halves : Bytes → Type 0
Halves raw =
    (encoded_home (read_home 0 (take 6 raw)) ++ drop 6 raw ≡ raw)
    × (read_home 0 (take 6 raw) < 2 ^ 48)
    × (length (drop 6 raw) ≡ 16)

raw-Halves : (raw : Bytes) → length raw ≡ 22 → All IsByte raw → Halves raw
unfolding encoded_home read_home take drop
raw-Halves (a ∷ b ∷ c ∷ d ∷ e ∷ f ∷ inv) n (ha, (hb, (hc, (hd, (he, (hf, _)))))) =
    let (p, q, r, s, t, u, v) = digits_of a b c d e f ha hb hc hd he hf in
    (ap (λ xs. xs ++ inv) (digits_list p q r s t u), v, omega arith)
raw-Halves _ n h = absurd (omega arith)

-- What is behind the prefix and has the digits.
behind_sound :
    (prefix : Bytes) (size : ℕ) (s rest : Bytes)
    → behind prefix size s ≡ some rest
    → (s ≡ prefix ++ rest) × (length s ≡ size) × (Hex.lower_hex rest ≡ true)
unfolding behind
behind_sound prefix size s rest h = ground (arith, strip-eq_some prefix s rest)

behind-append :
    (prefix rest : Bytes) (size : ℕ)
    → length prefix + length rest ≡ size
    → Hex.lower_hex rest ≡ true
    → behind prefix size (prefix ++ rest) ≡ some rest
unfolding behind
behind-append prefix rest size n h =
    ground (arith, strip-append prefix rest, length-append prefix rest)

halves_back :
    (home : ℕ) (inv : Bytes)
    → home < 2 ^ 48
    → let raw = encoded_home home ++ inv in (read_home 0 (take 6 raw) ≡ home) × (drop 6 raw ≡ inv)
unfolding take drop encoded_home
halves_back home inv h = (read-encoded_home home h, refl)

abbrev IsInverse : Bytes → Type 0
IsInverse inv = (length inv ≡ 16) × All IsByte inv

All-append : (a b : Bytes) → All IsByte a → All IsByte b → All IsByte (a ++ b)
All-append [] b h k = k
All-append (x ∷ a) b h k = (h.0, All-append a b h.1 k)

All-drop : (n : ℕ) (bs : Bytes) → All IsByte bs → All IsByte (drop n bs)
unfolding drop
All-drop zero bs h = h
All-drop (suc n) [] h = tt
All-drop (suc n) (b ∷ bs) h = All-drop n bs h.1

label_behind :
    (home : ℕ) (inv : Bytes)
    → IsInverse inv
    → behind ephemeral_label_prefix 47 (print_label home inv)
      ≡ some (Hex.encode (encoded_home home ++ inv))
unfolding print_label
label_behind home inv (n, bytes) =
    let raw = encoded_home home ++ inv in
    rw (← encode-append (encoded_home home) inv) (
      behind-append ephemeral_label_prefix (Hex.encode raw) 47
        (omega (
          arith,
          Hex.length-encode raw,
          length-append (encoded_home home) inv,
          length-encoded_home home,
        ))
        (Hex.lower_hex-encode raw (All-append _ inv (encoded_home_bytes home) bytes)))

parse-print_label :
    (home : ℕ) (inv : Bytes)
    → home < 2 ^ 48
    → IsInverse inv
    → parse_ephemeral_label (print_label home inv) ≡ some (home, inv)
unfolding parse_ephemeral_label read_label
parse-print_label home inv h (n, bytes) =
    let raw = encoded_home home ++ inv in
    let same = Hex.decode-encode raw (All-append _ inv (encoded_home_bytes home) bytes) in
    let (front, back) = halves_back home inv h in
    rw (label_behind home inv (n, bytes), read_label) (rw same (cc (front, back)))

parse_behind :
    (label rest : Bytes)
    → behind ephemeral_label_prefix 47 label ≡ some rest
    → let raw = Hex.decode rest in
      let home = read_home 0 (take 6 raw) in
      let inv = drop 6 raw in (home < 2 ^ 48) × IsInverse inv × (label ≡ print_label home inv)
unfolding print_label
parse_behind label rest e =
    let (shape, size, digits) = behind_sound ephemeral_label_prefix 47 label rest e in
    let (text, bytes, count) = Hex.encode-decode 22 rest (omega (arith, ap length shape)) digits in
    let (raw, home, inv) = raw-Halves (Hex.decode rest) count bytes in
    (
      home,
      (inv, All-drop 6 _ bytes),
      shape
          ∙ ap (λ x. ephemeral_label_prefix ++ x)
              (sym text
                ∙ ap Hex.encode (sym raw)
                ∙ encode-append (encoded_home (read_home 0 (take 6 (Hex.decode rest))))
                    (drop 6 (Hex.decode rest))),
    )

read_label-some :
    (o : Option Bytes) {home : ℕ} {inv : Bytes}
    → read_label o ≡ some (home, inv)
    → (rest : Bytes) × (o ≡ some rest)
      × (read_home 0 (take 6 (Hex.decode rest)) ≡ home)
      × (drop 6 (Hex.decode rest) ≡ inv)
unfolding read_label
read_label-some none h = cc
read_label-some (some rest) h = (rest, refl, cc, cc)

parse_sound :
    (label : Bytes) {home : ℕ} {inv : Bytes}
    → parse_ephemeral_label label ≡ some (home, inv)
    → (home < 2 ^ 48) × IsInverse inv × (label ≡ print_label home inv)
unfolding parse_ephemeral_label
parse_sound label h =
    let (rest, e, home, inv) = read_label-some (behind ephemeral_label_prefix 47 label) h in
    rw (← home, ← inv) (parse_behind label rest e)

IsInverse-of : (sha : Sha) (x : Bytes) → IsInverse (take 16 (sha.sum256 x))
IsInverse-of sha x = (
  length-take 16 (sha.sum256 x) (omega (arith, sha.digest_length x)),
  All-take 16 (sha.sum256 x) (sha.digest_bytes x),
)

label_printed :
    (sha : Sha) (home : ℕ) (spki label inv : Bytes)
    → ephemeral_label sha home spki ≡ ok (label, inv)
    → (home < 2 ^ 48) × IsInverse inv × (label ≡ print_label home inv)
unfolding ephemeral_label
label_printed sha home spki label inv h =
    ground
      (arith, IsInverse-of sha (codes "specter/ephemeral/v1" ++ (0 ∷ (encoded_home home ++ spki))))

-- The label that EphemeralLabel gives is the one text that ParseEphemeralLabel reads as its home
-- and its inverse key.
pub ephemeral_label-Parsed :
    (sha : Sha) (home : ℕ) (spki label inv other : Bytes)
    → ephemeral_label sha home spki ≡ ok (label, inv)
    → (parse_ephemeral_label other ≡ some (home, inv)) ↔ (other ≡ label)
ephemeral_label-Parsed sha home spki label inv other h =
    let (range, inverse, printed) = label_printed sha home spki label inv h in
    let parsed : parse_ephemeral_label label ≡ some (home, inv) =
      rw printed (parse-print_label home inv range inverse) in
    (λ e. (parse_sound other e).2 ∙ sym printed, λ e. ap parse_ephemeral_label e ∙ parsed)
