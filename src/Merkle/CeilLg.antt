-- ===== src/Merkle/CeilLg.antt =====
-- `ceil_lg` of common/merkle.h is the logarithm to base 2, rounded up.
use app_bitcoin_new.Prelude.{
  ℕ, zero, suc, ◌+◌, ◌-◌, ◌*◌, ◌%◌, ◌^◌, ◌≤◌, ◌<◌, ◌≡◌, refl, arith, none, some, ltb, true, false,
}
use app_bitcoin_new.Merkle.{ceil_lg_loop, ceil_lg}
use native.Mathlib.Nat.{pow-suc, pow-le-pow_right}
use native.Mathlib.Decide.{dec_lt}

-- The first power of two that is no less than `n`, by its exponent.
abbrev pub IsCeilLg : ℕ → ℕ → Type 0
IsCeilLg n d = (n ≤ 2 ^ d) × (2 ^ d < 2 * n)

-- The loop at `t` = 2 ^ r stops at that power.
ceil_lg_loop-below :
    (k n r : ℕ)
    → 2 ^ r < 2 * n
    → n ≤ 2 ^ (r + k)
    → r + k ≤ 31
    → (d : ℕ) × (ceil_lg_loop (suc k) n (2 ^ r) r ≡ some d) × (d ≤ r + k) × IsCeilLg n d
unfolding ceil_lg_loop
ceil_lg_loop-below zero n r lo hi small =
    let e : r + 0 ≡ r = omega arith in
    let hi' : n ≤ 2 ^ r = rw e at hi in
    let stop : ltb (2 ^ r) n ≡ false = ground arith in
    (r, rw (stop, ceil_lg_loop), omega arith, (hi', lo))
ceil_lg_loop-below (suc k) n r lo hi small = elim (dec_lt (2 ^ r) n) [
  | yes p ↦
      let e : r + suc k ≡ suc r + k = omega arith in
      let (d, run, le, is) =
        ceil_lg_loop-below k n (suc r) (omega (arith, pow-suc 2 r)) (rw e at hi) (omega arith) in
      let go : ltb (2 ^ r) n ≡ true = ground arith in
      let t : 2 * 2 ^ r % 2 ^ 32 ≡ 2 ^ suc r = omega (
        arith,
        pow-suc 2 r,
        pow-le-pow_right {n = 2} (omega arith) {i = suc r} {j = 31} (omega arith),
      ) in
      let r' : (r + 1) % 256 ≡ suc r = omega arith in
      (d, rw (go, ceil_lg_loop, t, r') run, omega arith, is)
  | no p ↦
      let stop : ltb (2 ^ r) n ≡ false = ground arith in
      (r, rw (stop, ceil_lg_loop), omega arith, (omega arith, lo))
]

-- Up to 2 ^ 31 `ceil_lg` returns, and what it returns is at most 31.
pub ceil_lg_lem :
    (n : ℕ) → 1 ≤ n → n ≤ 2 ^ 31 → (d : ℕ) × (ceil_lg n ≡ some d) × (d ≤ 31) × IsCeilLg n d
unfolding ceil_lg
ceil_lg_lem n lo hi = ceil_lg_loop-below 31 n 0 (omega arith) hi (omega arith)

-- At 0 the loop goes round for ever.
ceil_lg_loop-zero : (fuel n r : ℕ) → 0 < n → ceil_lg_loop fuel n 0 r ≡ none
unfolding ceil_lg_loop
ceil_lg_loop-zero zero n r h = refl
ceil_lg_loop-zero (suc fuel) n r h = ground (arith, ceil_lg_loop-zero fuel n ((r + 1) % 256))

ceil_lg_loop-wraps :
    (k fuel n r : ℕ) → k ≤ 31 → 2 ^ 31 < n → ceil_lg_loop fuel n (2 ^ (31 - k)) r ≡ none
unfolding ceil_lg_loop
ceil_lg_loop-wraps k zero n r hk h = refl
ceil_lg_loop-wraps zero (suc fuel) n r hk h =
    ground (arith, ceil_lg_loop-zero fuel n ((r + 1) % 256))
ceil_lg_loop-wraps (suc k) (suc fuel) n r hk h =
    let go : ltb (2 ^ (31 - suc k)) n ≡ true =
      ground
        (arith, pow-le-pow_right {n = 2} (omega arith) {i = 31 - suc k} {j = 31} (omega arith)) in
    let s : 31 - k ≡ suc (31 - suc k) = omega arith in
    let t : 2 * 2 ^ (31 - suc k) % 2 ^ 32 ≡ 2 ^ (31 - k) = rw s (
      omega (
        arith,
        pow-suc 2 (31 - suc k),
        pow-le-pow_right {n = 2} (omega arith) {i = suc (31 - suc k)} {j = 31} (omega arith),
      )) in
    rw (go, ceil_lg_loop, t) (ceil_lg_loop-wraps k fuel n ((r + 1) % 256) (omega arith) h)

-- Above 2 ^ 31 the 32-bit counter of `ceil_lg` wraps to 0 before it reaches `n`, and the loop does
-- not end, whatever the number of rounds.
pub ceil_lg-diverges : (fuel n : ℕ) → 2 ^ 31 < n → ceil_lg_loop fuel n 1 0 ≡ none
ceil_lg-diverges fuel n h = ceil_lg_loop-wraps 31 fuel n 0 (omega arith) h
