-- ===== src/Config/VersionBytes.antt =====
-- config/record.go: the bytes of a version, as they are stored, and the order of versions.
use specter.Prelude.{
  ℕ, zero, suc, ◌*◌, ◌/◌, ◌%◌, ◌^◌, ◌<◌, ◌≡◌, refl, ap, sym, ◌∙◌, Bool, true, false, [], ◌∷◌, ◌++◌,
  Bytes, ltb, ◌==◌, nat_eq, if◌then◌else◌, length, length-append, arith,
}
use specter.Config.{Version, newer}

-- The results of cmp.Compare and bytes.Compare.
pub data Comparison : Type 0 where
  less same more : Comparison

abbrev pub compare_nat : ℕ → ℕ → Comparison
compare_nat a b = if ltb a b then less else if a == b then same else more

abbrev pub otherwise : Comparison → Comparison → Comparison
otherwise less d = less
otherwise same d = d
otherwise more d = more

-- bytes.Compare
unfoldable pub compare_bytes : Bytes → Bytes → Comparison
compare_bytes [] [] = same
compare_bytes [] (y ∷ ys) = less
compare_bytes (x ∷ xs) [] = more
compare_bytes (x ∷ xs) (y ∷ ys) = otherwise (compare_nat x y) (compare_bytes xs ys)

-- BigEndian.PutUint64, in any number of bytes.
unfoldable pub big_endian : ℕ → ℕ → Bytes
big_endian zero v = []
big_endian (suc n) v = big_endian n (v / 256) ++ (v % 256 ∷ [])

-- bytes
unfoldable pub version_bytes : Version → Bytes
version_bytes v = big_endian 8 v.schema ++ (big_endian 8 v.revision ++ big_endian 32 v.digest)

-- compare
unfoldable pub compare_version : Version → Version → Comparison
compare_version a b =
    otherwise (compare_nat a.schema b.schema)
      (otherwise (compare_nat a.revision b.revision) (compare_nat a.digest b.digest))

abbrev pub is_more : Comparison → Bool
is_more more = true
is_more _ = false

otherwise_assoc : (a b c : Comparison) → otherwise (otherwise a b) c ≡ otherwise a (otherwise b c)
otherwise_assoc less b c = refl
otherwise_assoc same b c = refl
otherwise_assoc more b c = refl

otherwise_same : (a : Comparison) → otherwise a same ≡ a
otherwise_same less = refl
otherwise_same same = refl
otherwise_same more = refl

length-big_endian : (n v : ℕ) → length (big_endian n v) ≡ n
unfolding big_endian
length-big_endian zero v = refl
length-big_endian (suc n) v =
    length-append (big_endian n (v / 256)) (v % 256 ∷ [])
    ∙ omega (arith, length-big_endian n (v / 256))

compare_bytes-append :
    (xs ys us vs : Bytes)
    → length xs ≡ length ys
    → compare_bytes (xs ++ us) (ys ++ vs) ≡ otherwise (compare_bytes xs ys) (compare_bytes us vs)
unfolding compare_bytes
compare_bytes-append [] [] us vs h = refl
compare_bytes-append [] (y ∷ ys) us vs h = absurd (omega (arith, h))
compare_bytes-append (x ∷ xs) [] us vs h = absurd (omega (arith, h))
compare_bytes-append (x ∷ xs) (y ∷ ys) us vs h =
    ap (otherwise (compare_nat x y)) (compare_bytes-append xs ys us vs (omega (arith, h)))
    ∙ sym (otherwise_assoc (compare_nat x y) (compare_bytes xs ys) (compare_bytes us vs))

compare-digits :
    (a b : ℕ)
    → otherwise (compare_nat (a / 256) (b / 256)) (compare_nat (a % 256) (b % 256))
      ≡ compare_nat a b
compare-digits a b = ground arith

one_byte : (x y : ℕ) → compare_bytes (x ∷ []) (y ∷ []) ≡ compare_nat x y
unfolding compare_bytes
one_byte x y = otherwise_same (compare_nat x y)

power_suc : (n : ℕ) → 256 ^ suc n ≡ 256 * 256 ^ n
power_suc n = omega arith

fewer_digits : (n v : ℕ) → v < 256 ^ suc n → v / 256 < 256 ^ n
fewer_digits n v h = omega (arith, h, power_suc n)

compare_bytes-big_endian :
    (n a b : ℕ)
    → a < 256 ^ n
    → b < 256 ^ n
    → compare_bytes (big_endian n a) (big_endian n b) ≡ compare_nat a b
unfolding big_endian
compare_bytes-big_endian zero a b h k = unfold compare_bytes in ground (arith, h, k)
compare_bytes-big_endian (suc n) a b h k =
    compare_bytes-append (big_endian n (a / 256)) (big_endian n (b / 256)) (a % 256 ∷ [])
      (b % 256 ∷ []) (length-big_endian n (a / 256) ∙ sym (length-big_endian n (b / 256)))
    ∙ (ap (λ d. otherwise d (compare_bytes (a % 256 ∷ []) (b % 256 ∷ [])))
          (compare_bytes-big_endian n (a / 256) (b / 256) (fewer_digits n a h) (fewer_digits n b k))
        ∙ (ap (otherwise (compare_nat (a / 256) (b / 256))) (one_byte (a % 256) (b % 256))
            ∙ compare-digits a b))

newer-compare_version : (a b : Version) → is_more (compare_version a b) ≡ newer a b
unfolding compare_version newer
newer-compare_version a b = ground arith

-- Of two versions whose schemas and revisions have 64 bits and whose digests have 256, the
-- stored bytes compare as the versions do, by schema, then revision, then digest, and the first
-- is greater exactly when it is the newer one.
pub version_bytes-newer :
    (a b : Version)
    → a.schema < 2 ^ 64
    → b.schema < 2 ^ 64
    → a.revision < 2 ^ 64
    → b.revision < 2 ^ 64
    → a.digest < 2 ^ 256
    → b.digest < 2 ^ 256
    → (compare_bytes (version_bytes a) (version_bytes b) ≡ compare_version a b)
      × (is_more (compare_bytes (version_bytes a) (version_bytes b)) ≡ newer a b)
version_bytes-newer a b s s' r r' d d' = (ordered, ap is_more ordered ∙ newer-compare_version a b)
  where
    same_length : (n v w : ℕ) → length (big_endian n v) ≡ length (big_endian n w)
    same_length n v w = length-big_endian n v ∙ sym (length-big_endian n w)

    ordered : compare_bytes (version_bytes a) (version_bytes b) ≡ compare_version a b
    ordered =
        unfold version_bytes compare_version in
        compare_bytes-append (big_endian 8 a.schema) (big_endian 8 b.schema) _ _
          (same_length 8 a.schema b.schema)
        ∙ rw
            (
              compare_bytes-big_endian 8 a.schema b.schema s s',
              compare_bytes-append (big_endian 8 a.revision) (big_endian 8 b.revision)
                  (big_endian 32 a.digest) (big_endian 32 b.digest)
                  (same_length 8 a.revision b.revision),
              compare_bytes-big_endian 8 a.revision b.revision r r',
              compare_bytes-big_endian 32 a.digest b.digest d d',
            )
            refl
