-- ===== src/Tun/Keys.antt =====
-- spec/tun/key.go: the keys of the tunnels in the ring. No two of them are the same text.
use specter.Prelude.{
  ℕ, zero, suc, ◌+◌, ◌-◌, ◌*◌, ◌/◌, ◌%◌, ◌<◌, ◌≡◌, refl, sym, ap, ◌∙◌, Bool, false, ◌||◌, [], ◌∷◌,
  ◌++◌, Option, none, some, Bytes, ltb, ◌==◌, if◌then◌else◌, arith,
}
use specter.Tun.Text.{codes, strip}

-- A call of one of the functions of key.go.
pub data Key : Type 0 where
  destination_by_chord destination_by_tunnel : Bytes → Key
  routing : Bytes → ℕ → Key
  client_token client_hostnames client_lease custom_hostname : Bytes → Key
  host_waf delegation client_delegations : Bytes → Key

-- %d, with more fuel than there are digits.
digits : ℕ → ℕ → Bytes
digits zero n = []
digits (suc fuel) n =
    let longer = digits fuel (n / 10) ++ ((48 + n % 10) ∷ []) in
    if ltb n 10 then (48 + n) ∷ [] else longer

unfoldable pub decimal : ℕ → Bytes
unfolding digits
decimal n = digits (suc n) n

-- DestinationByChordKey and the others.
unfoldable pub key_bytes : Key → Bytes
key_bytes (destination_by_chord address) = codes "/destination/chord/" ++ address
key_bytes (destination_by_tunnel address) = codes "/destination/tunnel/" ++ address
key_bytes (routing hostname num) = codes "/tunnel/bundle/" ++ (hostname ++ (b'/' ∷ decimal num))
key_bytes (client_token token) = codes "/tunnel/client/token/" ++ token
key_bytes (client_hostnames token) = codes "/tunnel/client/hostnames/" ++ token
key_bytes (client_lease token) = codes "/tunnel/client/lease/" ++ token
key_bytes (custom_hostname hostname) = codes "/tunnel/client/custom/" ++ hostname
key_bytes (host_waf hostname) = codes "/tunnel/waf/" ++ hostname
key_bytes (delegation id) = codes "/tunnel/delegation/" ++ id
key_bytes (client_delegations token) = codes "/tunnel/client/delegations/" ++ token

-- The number that digits stand for, and the parts around the last slash.
value_from : ℕ → Bytes → ℕ
value_from n [] = n
value_from n (c ∷ cs) = value_from (10 * n + (c - 48)) cs

has_slash : Bytes → Bool
has_slash [] = false
has_slash (c ∷ cs) = c == b'/' || has_slash cs

around : Bytes → Bytes × Bytes
around [] = ([], [])
around (c ∷ cs) =
    let (front, back) = around cs in if has_slash cs then (c ∷ front, back) else ([], cs)

value-append :
    (n c : ℕ) (cs : Bytes) → value_from n (cs ++ (c ∷ [])) ≡ 10 * value_from n cs + (c - 48)
unfolding value_from
value-append n c [] = refl
value-append n c (d ∷ cs) = value-append (10 * n + (d - 48)) c cs

value-digits : (fuel n : ℕ) → n < fuel → value_from 0 (digits fuel n) ≡ n
unfolding digits value_from
value-digits zero n h = absurd (omega arith)
value-digits (suc fuel) n h =
    ground (arith, value-append 0 (48 + n % 10) (digits fuel (n / 10)), value-digits fuel (n / 10))

slash-append : (a b : Bytes) → has_slash (a ++ b) ≡ (has_slash a || has_slash b)
unfolding has_slash
slash-append [] b = refl
slash-append (c ∷ a) b = ground (arith, slash-append a b)

slash-digits : (fuel n : ℕ) → has_slash (digits fuel n) ≡ false
unfolding digits has_slash
slash-digits zero n = refl
slash-digits (suc fuel) n =
    ground
      (arith, slash-append (digits fuel (n / 10)) ((48 + n % 10) ∷ []), slash-digits fuel (n / 10))

around_last :
    (front back : Bytes) → has_slash back ≡ false → around (front ++ (b'/' ∷ back)) ≡ (front, back)
unfolding around has_slash
around_last [] back h = ground arith
around_last (c ∷ front) back h =
    ground (arith, around_last front back h, slash-append front (b'/' ∷ back))

-- The key that a text is, by its first prefix that fits.
read_routing : Bytes → Key
read_routing rest = let (hostname, num) = around rest in routing hostname (value_from 0 num)

or_else : Option Bytes → (Bytes → Key) → Key → Key
or_else none f k = k
or_else (some rest) f k = f rest

read_key : Bytes → Key
unfolding or_else
read_key s = or_else (strip (codes "/destination/chord/") s) destination_by_chord (
    or_else (strip (codes "/destination/tunnel/") s) destination_by_tunnel (
      or_else (strip (codes "/tunnel/bundle/") s) read_routing (
        or_else (strip (codes "/tunnel/client/token/") s) client_token (
          or_else (strip (codes "/tunnel/client/hostnames/") s) client_hostnames (
            or_else (strip (codes "/tunnel/client/lease/") s) client_lease (
              or_else (strip (codes "/tunnel/client/custom/") s) custom_hostname (
                or_else (strip (codes "/tunnel/waf/") s) host_waf (
                  or_else (strip (codes "/tunnel/delegation/") s) delegation (
                    or_else (strip (codes "/tunnel/client/delegations/") s) client_delegations
                      (client_token []))))))))))

read_routing_lem :
    (hostname : Bytes) (num : ℕ)
    → read_routing (hostname ++ (b'/' ∷ decimal num)) ≡ routing hostname num
unfolding read_routing decimal
read_routing_lem hostname num =
    rw (around_last hostname (digits (suc num) num) (slash-digits (suc num) num))
      (ap (routing hostname) (value-digits (suc num) num (omega arith)))

read-key_bytes : (k : Key) → read_key (key_bytes k) ≡ k
unfolding read_key key_bytes strip
read-key_bytes (destination_by_chord address) = refl
read-key_bytes (destination_by_tunnel address) = refl
read-key_bytes (routing hostname num) = read_routing_lem hostname num
read-key_bytes (client_token token) = refl
read-key_bytes (client_hostnames token) = refl
read-key_bytes (client_lease token) = refl
read-key_bytes (custom_hostname hostname) = refl
read-key_bytes (host_waf hostname) = refl
read-key_bytes (delegation id) = refl
read-key_bytes (client_delegations token) = refl

-- Two keys that the functions of key.go build are the same text only if they are built by the
-- same function from the same arguments.
pub key_bytes_injective : (j k : Key) → key_bytes j ≡ key_bytes k → j ≡ k
key_bytes_injective j k h = sym (read-key_bytes j) ∙ ap read_key h ∙ read-key_bytes k
