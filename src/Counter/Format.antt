-- ===== src/Counter/Format.antt =====
-- nteedb-core/counter.go: the fixed-width form, its width and its parser.
use ntee_db.Base.{
  ℕ, zero, suc, ◌+◌, ◌-◌, ◌*◌, ◌/◌, ◌%◌, ◌^◌, ◌≤◌, ◌<◌, ◌≡◌, ap, ◌∙◌, List, [], ◌∷◌, some, length,
  arith,
}
use ntee_db.Base.Int.{ℤ, pos, negsuc, IsInt64, wrap64, ◌+ℤ◌, ◌-ℤ◌}
use ntee_db.Counter.{
  put_digits, read_digits, format_counter, parse_counter, magnitude, signed_of, counter_width,
}
use native.Mathlib.Nat.{pow-suc, mod-lt, mul_comm}

length-put_digits : (i mag : ℕ) (rest : List ℕ) → length (put_digits i mag rest) ≡ i + length rest
unfolding put_digits
length-put_digits zero mag rest = omega arith
length-put_digits (suc i) mag rest =
    omega (arith, length-put_digits i (mag / 10) ((b'0' + mag % 10) ∷ rest))

-- Every formatted counter has exactly counterWidth bytes.
length-format_counter : (v : ℤ) → length (format_counter v) ≡ counter_width
unfolding format_counter
length-format_counter v = omega (arith, length-put_digits 19 (magnitude v) [])

mod_mul_ten : (m p : ℕ) → 0 < p → m % (10 * p) ≡ ((m / 10) % p) * 10 + m % 10
mod_mul_ten m p h = grind arith

digit_small :
    (acc d : ℕ) → d < 10 → acc < 10 ^ 18 → (acc * 10 + (b'0' + d - b'0')) % 2 ^ 64 ≡ acc * 10 + d
digit_small acc d h k = omega arith

-- One digit of `read_digits`, where the number stays small.
read_digit :
    (acc d : ℕ) (rest : List ℕ)
    → d < 10
    → acc < 10 ^ 18
    → read_digits acc ((b'0' + d) ∷ rest) ≡ read_digits (acc * 10 + d) rest
unfolding read_digits
read_digit acc d rest h k = ground (arith, digit_small acc d h k)

pos_pow : (i : ℕ) → 0 < 10 ^ i
pos_pow zero = omega arith
pos_pow (suc i) = omega (arith, pos_pow i, pow-suc 10 i)

fits_tenth : (acc p q : ℕ) → q ≡ p * 10 → (acc + 1) * q ≤ 10 ^ 19 → (acc + 1) * p ≤ 10 ^ 18
fits_tenth acc p q e h = let h' : (acc + 1) * (p * 10) ≤ 10 ^ 19 = rw (← e) h in omega arith

below_next : (acc p x b : ℕ) → x < p → (acc + 1) * p ≤ b → acc * p + x < b
below_next acc p x b h k = omega arith

joins :
    (acc mag p q : ℕ)
    → q ≡ p * 10
    → 0 < p
    → (acc * p + mag / 10 % p) * 10 + mag % 10 ≡ acc * q + mag % q
joins acc mag p q e h = rw (e, mul_comm p 10, mod_mul_ten mag p h) (omega arith)

-- Reading the digits that `put_digits` wrote adds them to what was read before.
read-put_digits :
    (i acc mag : ℕ) (rest : List ℕ)
    → (acc + 1) * 10 ^ i ≤ 10 ^ 19
    → read_digits acc (put_digits i mag rest) ≡ read_digits (acc * 10 ^ i + mag % 10 ^ i) rest
unfolding put_digits
read-put_digits zero acc mag rest h = ap (λ n. read_digits n rest) (omega arith)
read-put_digits (suc i) acc mag rest h =
    let p = 10 ^ i in
    let grows : 10 ^ suc i ≡ p * 10 = pow-suc 10 i in
    let low : (mag / 10) % p < p = mod-lt (mag / 10) (pos_pow i) in
    let fits : (acc + 1) * p ≤ 10 ^ 18 = fits_tenth acc p (10 ^ suc i) grows h in
    read-put_digits i acc (mag / 10) ((b'0' + mag % 10) ∷ rest) (omega arith)
    ∙ read_digit (acc * p + (mag / 10) % p) (mag % 10) rest (omega arith)
        (below_next acc p ((mag / 10) % p) (10 ^ 18) low fits)
    ∙ ap (λ n. read_digits n rest) (joins acc mag p (10 ^ suc i) grows (pos_pow i))

read-put_digits_all : (mag : ℕ) → mag < 10 ^ 19 → read_digits 0 (put_digits 19 mag []) ≡ some mag
unfolding read_digits
read-put_digits_all mag h = rw (read-put_digits 19 0 mag [] (omega arith)) (ap some (omega arith))

magnitude-pos : (n : ℕ) → IsInt64 (pos n) → magnitude (pos n) ≡ n
magnitude-pos n h = ground arith

-- The negation does not overflow, on the least int64 either.
magnitude-negsuc : (n : ℕ) → IsInt64 (negsuc n) → magnitude (negsuc n) ≡ suc n
unfolding wrap64 ◌+ℤ◌ ◌-ℤ◌
magnitude-negsuc n h = ground arith

signed_of_plus : (n : ℕ) → n < 2 ^ 63 → signed_of b'+' n ≡ some (pos n)
unfolding signed_of
signed_of_plus n h = ground arith

signed_of_minus : (n : ℕ) → n < 2 ^ 63 → signed_of b'-' (suc n) ≡ some (negsuc n)
unfolding signed_of wrap64 ◌-ℤ◌
signed_of_minus n h = ground arith

-- Every int64 is what its fixed-width form parses to.
pub parse-format_counter : (v : ℤ) → IsInt64 v → parse_counter (format_counter v) ≡ some v
unfolding parse_counter format_counter
parse-format_counter (pos n) h = ground (
  arith,
  length-put_digits 19 (magnitude (pos n)) [],
  magnitude-pos n h,
  read-put_digits_all n,
  signed_of_plus n,
)
parse-format_counter (negsuc n) h = ground (
  arith,
  length-put_digits 19 (magnitude (negsuc n)) [],
  magnitude-negsuc n h,
  read-put_digits_all (suc n),
  signed_of_minus n,
)
