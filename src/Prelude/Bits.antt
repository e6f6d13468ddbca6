-- ===== src/Prelude/Bits.antt =====
-- The bitwise operations of C as arithmetic: `|` of disjoint fields is a sum, and `&` with one bit
-- reads a binary digit.
use Prim.Native.Nat.{
  ℕ, zero, suc, ◌+◌, ◌-◌, ◌*◌, ◌/◌, ◌%◌, ◌^◌, ◌≤◌, ◌<◌, min, max, digits, bitwise, bit_and, bit_or,
  bit_xor, differ, bit_and-bitwise, bit_or-bitwise, bit_xor-bitwise,
}
use mathlib.Core.Path.{◌≡◌, refl, ap, ◌∙◌}
use native.Mathlib.Omega.{arith}
use native.Mathlib.Nat.{pow-suc, div-add-mod, div-div-eq-div-mul, mul_comm}

-- The fuel of the digit recursion does not matter once it covers the number.
module _ (z : ℕ → ℕ) (f : ℕ → ℕ → ℕ) where
  digits-fuel : (n m a b : ℕ) → a ≤ n → a ≤ m → digits z f n a b ≡ digits z f m a b
  digits-fuel zero zero a b p q = refl
  digits-fuel zero (suc m) zero b p q = refl
  digits-fuel zero (suc m) (suc a) b p q = absurd (omega arith)
  digits-fuel (suc n) zero zero b p q = refl
  digits-fuel (suc n) zero (suc a) b p q = absurd (omega arith)
  digits-fuel (suc n) (suc m) zero b p q = refl
  digits-fuel (suc n) (suc m) (suc a) b p q =
      omega (arith, digits-fuel n m (suc a / 2) (b / 2) (omega arith) (omega arith))

  bitwise-step :
      (a b : ℕ)
      → bitwise z f (suc a) b ≡ bitwise z f (suc a / 2) (b / 2) * 2 + f (suc a % 2) (b % 2)
  bitwise-step a b =
      omega (arith, digits-fuel a (suc a / 2) (suc a / 2) (b / 2) (omega arith) (omega arith))

pub bit_or_digit : (a b : ℕ) → bit_or a b ≡ bit_or (a / 2) (b / 2) * 2 + max (a % 2) (b % 2)
bit_or_digit zero b = simp bit_or-bitwise (omega arith)
bit_or_digit (suc a) b = simp bit_or-bitwise (bitwise-step (λ y. y) max a b)

pub bit_and_digit : (a b : ℕ) → bit_and a b ≡ bit_and (a / 2) (b / 2) * 2 + min (a % 2) (b % 2)
bit_and_digit zero b = simp bit_and-bitwise (omega arith)
bit_and_digit (suc a) b = simp bit_and-bitwise (bitwise-step (λ y. 0) min a b)

bit_or-zero_below : (n a : ℕ) → a ≤ n → bit_or a 0 ≡ a
bit_or-zero_below n zero h = refl
bit_or-zero_below zero (suc a) h = absurd (omega arith)
bit_or-zero_below (suc n) (suc a) h =
    omega (arith, bit_or_digit (suc a) 0, bit_or-zero_below n (suc a / 2) (omega arith))

bit_and-zero_below : (n a : ℕ) → a ≤ n → bit_and a 0 ≡ 0
bit_and-zero_below n zero h = refl
bit_and-zero_below zero (suc a) h = absurd (omega arith)
bit_and-zero_below (suc n) (suc a) h =
    omega (arith, bit_and_digit (suc a) 0, bit_and-zero_below n (suc a / 2) (omega arith))

double : (q k : ℕ) → q * 2 ^ suc k ≡ 2 * (q * 2 ^ k)
double q k = omega (arith, ap (λ (t : ℕ). q * t) (pow-suc 2 k))

pub bit_or_disjoint : (k q r : ℕ) → r < 2 ^ k → bit_or (q * 2 ^ k) r ≡ q * 2 ^ k + r
bit_or_disjoint zero q r h = ground (arith, bit_or-zero_below q q)
bit_or_disjoint (suc k) q r h =
    ground (arith, bit_or_digit (q * 2 ^ suc k) r, double q k, bit_or_disjoint k q (r / 2))

-- `x` holds nothing below bit `k`, and `y` nothing from there on.
pub bit_or_add : (k x y : ℕ) → x % 2 ^ k ≡ 0 → y < 2 ^ k → bit_or x y ≡ x + y
bit_or_add k x y hx hy = ground (arith, div-add-mod x (2 ^ k), bit_or_disjoint k (x / 2 ^ k) y)

-- `x & (1 << k)` is digit `k` of `x`, in its place.
pub bit_and_one_bit : (k x : ℕ) → bit_and x (2 ^ k) ≡ x / 2 ^ k % 2 * 2 ^ k
bit_and_one_bit zero x =
    omega (arith, bit_and_digit x 1, bit_and-zero_below (x / 2) (x / 2) (omega arith))
bit_and_one_bit (suc k) x = ground (
  arith,
  bit_and_digit x (2 ^ suc k),
  pow-suc 2 k,
  div-div-eq-div-mul x 2 (2 ^ k),
  mul_comm 2 (2 ^ k),
  double (x / 2 ^ suc k % 2) k,
  bit_and_one_bit k (x / 2),
)

bit_or-comm_below : (n a b : ℕ) → a + b ≤ n → bit_or a b ≡ bit_or b a
bit_or-comm_below n zero zero h = refl
bit_or-comm_below zero zero (suc b) h = absurd (omega arith)
bit_or-comm_below zero (suc a) b h = absurd (omega arith)
bit_or-comm_below (suc n) zero (suc b) h = omega (
  arith,
  bit_or_digit 0 (suc b),
  bit_or_digit (suc b) 0,
  bit_or-comm_below n (0 / 2) (suc b / 2) (omega arith),
)
bit_or-comm_below (suc n) (suc a) b h = omega (
  arith,
  bit_or_digit (suc a) b,
  bit_or_digit b (suc a),
  bit_or-comm_below n (suc a / 2) (b / 2) (omega arith),
)

pub bit_or_comm : (a b : ℕ) → bit_or a b ≡ bit_or b a
bit_or_comm a b = bit_or-comm_below (a + b) a b (omega arith)

-- One `|` of a chain: the higher field first, or the lower one.
pub bit_or_high :
    (k a b : ℕ) {x y : ℕ} → x ≡ a → y ≡ b → a % 2 ^ k ≡ 0 → b < 2 ^ k → bit_or x y ≡ a + b
bit_or_high k a b p q ha hb = rw (p, q) (bit_or_add k a b ha hb)

pub bit_or_low :
    (k a b : ℕ) {x y : ℕ} → x ≡ a → y ≡ b → a < 2 ^ k → b % 2 ^ k ≡ 0 → bit_or x y ≡ a + b
bit_or_low k a b p q ha hb = rw (p, q) (bit_or_comm a b ∙ (bit_or_add k b a hb ha ∙ omega arith))

bit_xor_digit : (a b : ℕ) → bit_xor a b ≡ bit_xor (a / 2) (b / 2) * 2 + differ (a % 2) (b % 2)
bit_xor_digit zero b = simp bit_xor-bitwise (differ-zero b)
  where
    bit : (d : ℕ) → d < 2 → differ 0 d ≡ d
    bit zero h = refl
    bit (suc zero) h = refl
    bit (suc (suc d)) h = absurd (omega arith)

    differ-zero : (b : ℕ) → b ≡ b / 2 * 2 + differ 0 (b % 2)
    differ-zero b = omega (arith, bit (b % 2) (omega arith))
bit_xor_digit (suc a) b = simp bit_xor-bitwise (bitwise-step (λ y. y) differ a b)

differ-right : (d : ℕ) → d < 2 → (differ d 0 ≡ d) × (differ d 1 ≡ 1 - d)
differ-right zero h = (refl, refl)
differ-right (suc zero) h = (refl, refl)
differ-right (suc (suc d)) h = absurd (omega arith)

bit_xor-zero_below : (n a : ℕ) → a ≤ n → bit_xor a 0 ≡ a
bit_xor-zero_below n zero h = refl
bit_xor-zero_below zero (suc a) h = absurd (omega arith)
bit_xor-zero_below (suc n) (suc a) h = omega (
  arith,
  bit_xor_digit (suc a) 0,
  bit_xor-zero_below n (suc a / 2) (omega arith),
  differ-right (suc a % 2) (omega arith),
)

-- `x ^ (1 << k)` turns digit `k` over.
pub bit_xor_one_bit : (k x : ℕ) → bit_xor x (2 ^ k) + x / 2 ^ k % 2 * 2 ^ k * 2 ≡ x + 2 ^ k
bit_xor_one_bit zero x = omega (
  arith,
  bit_xor_digit x 1,
  bit_xor-zero_below (x / 2) (x / 2) (omega arith),
  differ-right (x % 2) (omega arith),
)
bit_xor_one_bit (suc k) x = ground (
  arith,
  bit_xor_digit x (2 ^ suc k),
  pow-suc 2 k,
  div-div-eq-div-mul x 2 (2 ^ k),
  mul_comm 2 (2 ^ k),
  double (x / 2 ^ suc k % 2) k,
  differ-right (x % 2) (omega arith),
  bit_xor_one_bit k (x / 2),
)
