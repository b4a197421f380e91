-- ===== src/Nmea/Checksum.antt =====
-- Nmea::calculateChecksum (src/nmea/Nmea.cpp) tells characters apart.
use startkladde.Prelude.{
  ℕ, zero, suc, ◌+◌, ◌*◌, ◌/◌, ◌%◌, ◌^◌, ◌≤◌, ◌<◌, ◌≡◌, ◌≢◌, refl, sym, ◌∙◌, [], ◌∷◌, ◌++◌, arith,
}
use Prim.Native.Nat.{bit_xor, differ, digits, bit_xor-bitwise}
use startkladde.Nmea.{Text, to_latin1, xor_each, calculate_checksum}

-- The lowest digit of an exclusive or, and the others.
xor_digits_fuel :
    (n m a b : ℕ) → a ≤ n → a ≤ m → digits (λ b. b) differ n a b ≡ digits (λ b. b) differ m a b
xor_digits_fuel zero zero a b p q = refl
xor_digits_fuel zero (suc m) zero b p q = refl
xor_digits_fuel zero (suc m) (suc a) b p q = elim p [ ]
xor_digits_fuel (suc n) zero zero b p q = refl
xor_digits_fuel (suc n) zero (suc a) b p q = elim q [ ]
xor_digits_fuel (suc n) (suc m) zero b p q = refl
xor_digits_fuel (suc n) (suc m) (suc a) b p q =
    omega (arith, xor_digits_fuel n m (suc a / 2) (b / 2) (omega arith) (omega arith))

zero-bit_xor : (b : ℕ) → bit_xor 0 b ≡ b
zero-bit_xor b = bit_xor-bitwise 0 b

differ_lem : (x y : ℕ) → x < 2 → y < 2 → differ x y ≡ (x + y) % 2
differ_lem zero y p q = omega arith
differ_lem (suc zero) zero p q = refl
differ_lem (suc zero) (suc zero) p q = refl
differ_lem (suc zero) (suc (suc y)) p q = omega arith
differ_lem (suc (suc x)) y p q = omega arith

bit_xor_step : (a b : ℕ) → bit_xor a b ≡ bit_xor (a / 2) (b / 2) * 2 + (a % 2 + b % 2) % 2
bit_xor_step zero b = omega (arith, zero-bit_xor b, zero-bit_xor (b / 2))
bit_xor_step (suc a) b = omega (
  arith,
  bit_xor-bitwise (suc a) b,
  bit_xor-bitwise (suc a / 2) (b / 2),
  xor_digits_fuel a (suc a / 2) (suc a / 2) (b / 2) (omega arith) (omega arith),
  differ_lem (suc a % 2) (b % 2) (omega arith) (omega arith),
)

-- Exclusive or with a number is injective on either side.
bit_xor_left_fuel : (n a b x : ℕ) → a ≤ n → b ≤ n → bit_xor a x ≡ bit_xor b x → a ≡ b
bit_xor_left_fuel zero a b x p q h = omega arith
bit_xor_left_fuel (suc n) a b x p q h =
    let same : bit_xor (a / 2) (x / 2) ≡ bit_xor (b / 2) (x / 2) =
      omega (arith, bit_xor_step a x, bit_xor_step b x) in
    omega (
      arith,
      bit_xor_step a x,
      bit_xor_step b x,
      bit_xor_left_fuel n (a / 2) (b / 2) (x / 2) (omega arith) (omega arith) same,
    )

bit_xor_right_fuel : (n a x y : ℕ) → x ≤ n → y ≤ n → bit_xor a x ≡ bit_xor a y → x ≡ y
bit_xor_right_fuel zero a x y p q h = omega arith
bit_xor_right_fuel (suc n) a x y p q h =
    let same : bit_xor (a / 2) (x / 2) ≡ bit_xor (a / 2) (y / 2) =
      omega (arith, bit_xor_step a x, bit_xor_step a y) in
    omega (
      arith,
      bit_xor_step a x,
      bit_xor_step a y,
      bit_xor_right_fuel n (a / 2) (x / 2) (y / 2) (omega arith) (omega arith) same,
    )

-- The checksum of the rest tells checksums so far apart.
xor_each_left : (content : Text) (a b : ℕ) → xor_each a content ≡ xor_each b content → a ≡ b
xor_each_left [] a b h = h
xor_each_left (c ∷ content) a b h =
    bit_xor_left_fuel (a + b) a b (to_latin1 c) (omega arith) (omega arith)
      (xor_each_left content (bit_xor a (to_latin1 c)) (bit_xor b (to_latin1 c)) h)

xor_each-append :
    (before after : Text) (a : ℕ)
    → xor_each a (before ++ after) ≡ xor_each (xor_each a before) after
xor_each-append [] after a = refl
xor_each-append (c ∷ before) after a = xor_each-append before after (bit_xor a (to_latin1 c))

-- A text in which one character is replaced by another one that is different in Latin-1 has another
-- checksum.
pub calculate_checksum-replaced :
    (before after : Text) (c d : ℕ)
    → to_latin1 c ≢ to_latin1 d
    → calculate_checksum (before ++ c ∷ after) ≢ calculate_checksum (before ++ d ∷ after)
unfolding calculate_checksum
calculate_checksum-replaced before after c d different h =
    let so_far = xor_each 0 before in
    let same =
      xor_each_left after (bit_xor so_far (to_latin1 c)) (bit_xor so_far (to_latin1 d))
        (sym (xor_each-append before (c ∷ after) 0) ∙ h ∙ xor_each-append before (d ∷ after) 0) in
    different (
      bit_xor_right_fuel (to_latin1 c + to_latin1 d) so_far (to_latin1 c) (to_latin1 d)
        (omega arith) (omega arith) same)

bit_xor_bound : (k a b : ℕ) → a < 2 ^ k → b < 2 ^ k → bit_xor a b < 2 ^ k
bit_xor_bound zero zero b p q = rw (zero-bit_xor b) q
bit_xor_bound zero (suc a) b p q = omega arith
bit_xor_bound (suc k) a b p q =
    omega (arith, bit_xor_step a b, bit_xor_bound k (a / 2) (b / 2) (omega arith) (omega arith))

xor_each_bound : (content : Text) (a : ℕ) → a < 256 → xor_each a content < 256
xor_each_bound [] a h = h
xor_each_bound (c ∷ content) a h =
    xor_each_bound content (bit_xor a (to_latin1 c))
      (bit_xor_bound 8 a (to_latin1 c) h (ground arith))

-- The checksum fits in the eight bits of the source's type.
calculate_checksum_bound : (content : Text) → calculate_checksum content < 256
unfolding calculate_checksum
calculate_checksum_bound content = xor_each_bound content 0 (omega arith)
