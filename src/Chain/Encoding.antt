-- ===== src/Chain/Encoding.antt =====
-- chain/store.go: a round as a key of the database, eight bytes in big-endian order.
use native.Mathlib.Nat.{
  pow-suc, div-add-mod, div-div-eq-div-mul, mod-eq-sub-mul-div, mod-eq_of_lt, mod-lt,
  mul-le-mul_right,
}
use drand.Prelude.{
  ℕ, zero, suc, ◌+◌, ◌*◌, ◌/◌, ◌%◌, ◌^◌, ◌<◌, ◌≡◌, refl, sym, ap, ◌∙◌, Bool, true, false, ◌||◌,
  ◌&&◌, Option, some, none, [], ◌∷◌, ◌++◌, arith, ltb, ◌==◌, Bytes, length,
}

-- The `n` low bytes of a number, the highest first.
unfoldable pub big_endian : ℕ → ℕ → Bytes
big_endian zero r = []
big_endian (suc n) r = (r / 256 ^ n % 256) ∷ big_endian n r

-- RoundToBytes
unfoldable pub round_to_bytes : ℕ → Bytes
unfolding big_endian
round_to_bytes r = big_endian 8 r

-- bytes.Compare(a, b) < 0, the order in which the database walks its keys.
unfoldable pub lt_bytes : Bytes → Bytes → Bool
lt_bytes [] [] = false
lt_bytes [] (y ∷ ys) = true
lt_bytes (x ∷ xs) [] = false
lt_bytes (x ∷ xs) (y ∷ ys) = ltb x y || (x == y && lt_bytes xs ys)

digit : (q : ℕ) → q ≡ 256 * (q / 256) + q % 256
digit q = omega arith

-- The remainder by 256 p splits into a digit and the remainder by p.
mod_digit : (p r : ℕ) → 0 < p → r % (p * 256) ≡ r / p % 256 * p + r % p
mod_digit p r h =
    rw (mod-eq-sub-mul-div r (p * 256), ← div-div-eq-div-mul r p 256)
      (omega (arith, div-add-mod r p, ap (λ t. p * t) (digit (r / p))))

length-big_endian : (n r : ℕ) → length (big_endian n r) ≡ n
unfolding big_endian
length-big_endian zero r = refl
length-big_endian (suc n) r = ap suc (length-big_endian n r)

-- Two numbers in base p compare by their high digits, then by their low ones.
lt_digits :
    (p x y u v : ℕ) → u < p → v < p → ltb (x * p + u) (y * p + v) ≡ (ltb x y || (x == y && ltb u v))
lt_digits p x y u v h k =
    ground (arith, mul-le-mul_right {m = suc x} {n = y} p, mul-le-mul_right {m = suc y} {n = x} p)

pow256_pos : (n : ℕ) → 0 < 256 ^ n
pow256_pos zero = omega arith
pow256_pos (suc n) = rw (pow-suc 256 n) (omega (arith, pow256_pos n))

lt_bytes-big_endian :
    (n a b : ℕ) → lt_bytes (big_endian n a) (big_endian n b) ≡ ltb (a % 256 ^ n) (b % 256 ^ n)
unfolding lt_bytes big_endian
lt_bytes-big_endian zero a b = ground arith
lt_bytes-big_endian (suc n) a b =
    rw
      (
        lt_bytes-big_endian n a b,
        pow-suc 256 n,
        mod_digit (256 ^ n) a (pow256_pos n),
        mod_digit (256 ^ n) b (pow256_pos n),
      )
      (sym (
        lt_digits (256 ^ n) (a / 256 ^ n % 256) (b / 256 ^ n % 256) (a % 256 ^ n) (b % 256 ^ n)
          (mod-lt a (pow256_pos n)) (mod-lt b (pow256_pos n))))

-- The order of the keys is the order of the rounds, for uint64 rounds.
pub lt_bytes-round_to_bytes :
    (a b : ℕ) → a < 2 ^ 64 → b < 2 ^ 64 → lt_bytes (round_to_bytes a) (round_to_bytes b) ≡ ltb a b
unfolding round_to_bytes
lt_bytes-round_to_bytes a b h k =
    lt_bytes-big_endian 8 a b
    ∙ rw (mod-eq_of_lt {n = a} {m = 256 ^ 8} h, mod-eq_of_lt {n = b} {m = 256 ^ 8} k)

-- A number is read back from its bytes, whatever follows.
unfoldable pub read_big_endian : ℕ → ℕ → Bytes → Option (ℕ × Bytes)
read_big_endian zero acc rest = some (acc, rest)
read_big_endian (suc n) acc [] = none
read_big_endian (suc n) acc (b ∷ bs) = read_big_endian n (acc * 256 + b) bs

read-big_endian :
    (n acc r : ℕ) (rest : Bytes)
    → read_big_endian n acc (big_endian n r ++ rest) ≡ some (acc * 256 ^ n + r % 256 ^ n, rest)
unfolding read_big_endian big_endian
read-big_endian zero acc r rest = ground arith
read-big_endian (suc n) acc r rest =
    read-big_endian n (acc * 256 + r / 256 ^ n % 256) r rest
    ∙ rw (pow-suc 256 n, mod_digit (256 ^ n) r (pow256_pos n))
        (ap (λ t. some (t, rest)) (omega arith))

-- Eight bytes hold a uint64 round; what follows them is untouched.
pub read-round_to_bytes :
    (r : ℕ) (rest : Bytes)
    → r < 2 ^ 64
    → read_big_endian 8 0 (round_to_bytes r ++ rest) ≡ some (r, rest)
unfolding round_to_bytes
read-round_to_bytes r rest h =
    read-big_endian 8 0 r rest
    ∙ rw (mod-eq_of_lt {n = r} {m = 256 ^ 8} h) (ap (λ t. some (t, rest)) (omega arith))

-- Rounds with the same bytes are the same.
pub round_to_bytes-injective :
    (q r : ℕ) → q < 2 ^ 64 → r < 2 ^ 64 → round_to_bytes q ≡ round_to_bytes r → q ≡ r
round_to_bytes-injective q r h k e =
    let both : ◌≡◌ {A = Option (ℕ × Bytes)} (some (q, [])) (some (r, [])) =
      sym (read-round_to_bytes q [] h)
      ∙ ap (λ t. read_big_endian 8 0 (t ++ [])) e
      ∙ read-round_to_bytes r [] k in
    ground arith
