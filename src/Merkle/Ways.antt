-- ===== src/Merkle/Ways.antt =====
-- `merkle_get_ith_direction` of common/merkle.c against the way to a leaf of a tree.
use app_bitcoin_new.Prelude.{
  ℕ, zero, suc, ◌+◌, ◌-◌, ◌*◌, ◌/◌, ◌%◌, ◌^◌, ◌≤◌, ◌<◌, ◌≡◌, refl, sym, ap, ◌∙◌, arith, List, ◌∷◌,
  Option, some, true, false, not, ltb, leb, ◌==◌, if◌then◌else◌, get_or, bit_and, Bool-cases, inl,
  inr, tests,
}
use app_bitcoin_new.Prelude.Bits.{bit_and_one_bit}
use app_bitcoin_new.Merkle.{
  Direction, invalid, left, right, direction_loop, merkle_get_ith_direction, ceil_lg,
}
use app_bitcoin_new.Merkle.CeilLg.{IsCeilLg, ceil_lg_lem}
use app_bitcoin_new.Merkle.Tree.{Tree, leaf, node, size, IsMerkle, way}
use native.Mathlib.Nat.{pow-suc, pow-le-pow_right, one-le-pow, div-eq_of_lt, div-eq_of_lt-le}
use native.Mathlib.Decide.{dec_lt}

pub size-pos : {A : Type 0} (t : Tree A) → 1 ≤ size t
size-pos (leaf a) = omega arith
size-pos (node l r) = omega (arith, size-pos l, size-pos r)

-- At a power of two that is the rounded logarithm's half, the code's mask is the left size.
left-mask :
    (m k : ℕ)
    → 2 ^ k < m
    → m ≤ 2 * 2 ^ k
    → m ≤ 2 ^ 31
    → (d : ℕ) × (ceil_lg m ≡ some d) × (2 ^ (d - 1) % 2 ^ 32 ≡ 2 ^ k)
left-mask m k lo hi small =
    let (d, e, le, is) = ceil_lg_lem m (omega arith) small in (d, e, exponent d le is)
  where
    exponent : (d : ℕ) → d ≤ 31 → IsCeilLg m d → 2 ^ (d - 1) % 2 ^ 32 ≡ 2 ^ k
    exponent d le is = elim (dec_lt k d) [
      | no p ↦
          absurd
            (omega (arith, pow-le-pow_right {n = 2} (omega arith) {i = d} {j = k} (omega arith)))
      | yes p ↦ elim (dec_lt (suc k) d) [
        | yes q ↦ absurd (
            omega (
              arith,
              pow-suc 2 k,
              pow-suc 2 (suc k),
              pow-le-pow_right {n = 2} (omega arith) {i = suc (suc k)} {j = d} q,
            ))
        | no q ↦
            let w : d - 1 ≡ k = omega arith in
            rw w
              (omega (arith, pow-le-pow_right {n = 2} (omega arith) {i = k} {j = 30} (omega arith)))
      ]
    ]

-- Bit `k` of an index below 2 ^ (k + 1) tells the halves apart.
high_bit :
    (index k : ℕ) → index < 2 * 2 ^ k → (not (bit_and index (2 ^ k) == 0)) ≡ not (ltb index (2 ^ k))
high_bit index k h = elim (dec_lt index (2 ^ k)) [
  | yes p ↦
      let q : index / 2 ^ k ≡ 0 = div-eq_of_lt p in
      let z : bit_and index (2 ^ k) ≡ 0 = bit_and_one_bit k index ∙ rw q (omega arith) in
      rw z (ground arith)
  | no p ↦
      let q : index / 2 ^ k ≡ 1 = div-eq_of_lt-le (2 ^ k) (omega arith) (omega arith) in
      let z : bit_and index (2 ^ k) ≡ 2 ^ k = bit_and_one_bit k index ∙ rw q (omega arith) in
      rw z (ground (arith, one-le-pow k 2))
]

-- One round of the loop, on either side.
module _ (fuel s index i j d mask : ℕ) (two : 1 < s) (depth : ceil_lg s ≡ some d)
    (width : 2 ^ (d - 1) % 2 ^ 32 ≡ mask) where
  round-right :
      (not (bit_and index mask == 0)) ≡ true
      → direction_loop (suc fuel) s index i j ≡ (
          if j == i
          then some right
          else direction_loop fuel (s - mask) (index - mask) i ((j + 1) % 256))
  unfolding direction_loop
  round-right bit =
      let t : ltb 1 s ≡ true = ground arith in rw (t, direction_loop, depth, width, bit, width)

  round-left :
      (not (bit_and index mask == 0)) ≡ false
      → direction_loop (suc fuel) s index i j
        ≡ (if j == i then some left else direction_loop fuel mask index i ((j + 1) % 256))
  unfolding direction_loop
  round-left bit =
      let t : ltb 1 s ≡ true = ground arith in rw (t, direction_loop, depth, width, bit, width)

pow-half : (k fuel : ℕ) → 2 ^ k < 2 ^ suc fuel → 2 ^ k ≤ 2 ^ fuel
pow-half k fuel h = elim (dec_lt fuel k) [
  | yes p ↦ absurd (omega (arith, pow-le-pow_right {n = 2} (omega arith) {i = suc fuel} {j = k} p))
  | no p ↦ pow-le-pow_right {n = 2} (omega arith) (omega arith)
]

-- The entry `i - j` behind the first one.
get_or-behind :
    (d : Direction) (ds : List Direction) (i j : ℕ)
    → j < i
    → get_or (d ∷ ds) (i - j) invalid ≡ get_or ds (i - (j + 1)) invalid
get_or-behind d ds i j h = let e : i - j ≡ suc (i - (j + 1)) = omega arith in rw e

-- A round that looks for direction `i`, where the rounds behind it answer as the rest of the way.
round-way :
    (d : Direction) (ds : List Direction) (i j : ℕ) (rest : Option Direction)
    → j ≤ i
    → (j < i → rest ≡ some (get_or ds (i - (j + 1)) invalid))
    → (if j == i then some d else rest) ≡ some (get_or (d ∷ ds) (i - j) invalid)
round-way d ds i j rest le answer = elim (dec_lt j i) [
  | yes p ↦
      let other : (j == i) ≡ false = ground arith in rw (other, get_or-behind d ds i j p) (answer p)
  | no p ↦
      let same : (j == i) ≡ true = ground arith in let e : i - j ≡ 0 = omega arith in rw (same, e)
]

-- The `i`-th direction from round `j` on is the entry `i - j` of the way.
direction_loop-way :
    {A : Type 0} (t : Tree A) (fuel index i j : ℕ)
    → IsMerkle t
    → size t ≤ 2 ^ 31
    → index < size t
    → size t ≤ 2 ^ fuel
    → j ≤ i
    → j + fuel ≤ 255
    → direction_loop (suc fuel) (size t) index i j ≡ some (get_or (way t index) (i - j) invalid)
unfolding way
direction_loop-way (leaf a) fuel index i j m small lt fits le wide = unfold direction_loop in refl
direction_loop-way (node l r) zero index i j m small lt fits le wide =
    absurd (omega (arith, size-pos l, size-pos r))
direction_loop-way (node l r) (suc fuel) index i j (ml, mr, (k, sl), sr) small lt fits le wide =
    let (d, e, mask) =
      left-mask (size l + size r) k (omega (arith, size-pos r)) (omega arith) small in
    let width : 2 ^ (d - 1) % 2 ^ 32 ≡ size l = mask ∙ sym sl in
    let bit : (not (bit_and index (size l) == 0)) ≡ not (ltb index (size l)) =
      rw sl (high_bit index k (omega arith)) in
    let two : 1 < size l + size r = omega (arith, size-pos l, size-pos r) in
    let next : (j + 1) % 256 ≡ j + 1 = omega arith in
    let rest : size l + size r - size l ≡ size r = omega arith in
    let half : size l ≤ 2 ^ fuel = rw sl (pow-half k fuel (omega (arith, size-pos r))) in
    elim (Bool-cases (ltb index (size l))) [
      | inl go_left ↦
          rw
            (
              round-left (suc fuel) (size l + size r) index i j d (size l) two e width
                  (bit ∙ ap not go_left),
              next,
              way,
              go_left,
            )
            (round-way left (way l index) i j _ le (λ h.
              direction_loop-way l fuel index i (j + 1) ml (omega arith) (omega tests) half
                (omega arith) (omega arith)))
      | inr go_right ↦
          rw
            (
              round-right (suc fuel) (size l + size r) index i j d (size l) two e width
                  (bit ∙ ap not go_right),
              next,
              way,
              go_right,
              rest,
            )
            (round-way right (way r (index - size l)) i j _ le (λ h.
              direction_loop-way r fuel (index - size l) i (j + 1) mr (omega arith) (ground arith)
                (omega arith) (omega arith) (omega arith)))
    ]

-- For a tree of at most 2 ^ 31 leaves and an index of a leaf, `merkle_get_ith_direction` returns the
-- `i`-th direction of the way from the root to that leaf, and -1 from the end of the way on.
pub merkle_get_ith_direction-way :
    {A : Type 0} (t : Tree A) (index i : ℕ)
    → IsMerkle t
    → size t ≤ 2 ^ 31
    → index < size t
    → merkle_get_ith_direction (size t) index i ≡ some (get_or (way t index) i invalid)
unfolding merkle_get_ith_direction
merkle_get_ith_direction-way (leaf a) index i m small lt = unfold way in refl
merkle_get_ith_direction-way (node l r) index i m small lt =
    let big : leb (size l + size r) 1 ≡ false = ground (arith, size-pos l, size-pos r) in
    let in_range : leb (size l + size r) index ≡ false = ground arith in
    let all : i - 0 ≡ i = omega arith in
    rw (big, in_range)
      (direction_loop-way (node l r) 32 index i 0 m small lt (omega arith) (omega arith)
          (omega arith)
        ∙ ap (λ (k : ℕ). some (get_or (way (node l r) index) k invalid)) all)
