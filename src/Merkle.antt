-- ===== src/Merkle.antt =====
-- common/merkle.c and common/merkle.h: hashes of Merkle trees, and the way from the root to a leaf.
pub mod CeilLg
pub mod Tree
pub mod Ways
mod Tests
use app_bitcoin_new.Prelude.{
  ℕ, zero, suc, ◌+◌, ◌-◌, ◌*◌, ◌%◌, ◌^◌, List, [], ◌∷◌, ◌++◌, Option, none, some, Bool, true, false,
  take, bit_and, ltb, leb, ◌==◌, if◌then◌else◌, ◌||◌, not,
}

-- SHA-256 is the device's library's: `sha256` gives the digest of a list of bytes.
module _ (sha256 : List ℕ → List ℕ) where
  unfoldable pub merkle_compute_element_hash : List ℕ → ℕ → List ℕ
  merkle_compute_element_hash src in_len = sha256 (0x00 ∷ take in_len src)

  unfoldable pub merkle_combine_hashes : List ℕ → List ℕ → List ℕ
  merkle_combine_hashes left right = sha256 (0x01 ∷ (take 32 left ++ take 32 right))

-- The loop of `ceil_lg` at `t` and `r`; `none` means that the fuel ran out.
unfoldable pub ceil_lg_loop : ℕ → ℕ → ℕ → ℕ → Option ℕ
ceil_lg_loop zero n t r = none
ceil_lg_loop (suc fuel) n t r =
    let rest = ceil_lg_loop fuel n (2 * t % 2 ^ 32) ((r + 1) % 256) in
    if ltb t n then rest else some r

unfoldable pub ceil_lg : ℕ → Option ℕ
ceil_lg n = ceil_lg_loop 32 n 1 0

-- The results -1, 0 and 1 of `merkle_get_ith_direction`.
pub data Direction : Type 0 where
  invalid left right : Direction

-- One round of its loop over `size` and `index`; `none` means that the fuel ran out.
unfoldable pub direction_loop : ℕ → ℕ → ℕ → ℕ → ℕ → Option Direction
direction_loop zero size index i n_directions = none
direction_loop (suc fuel) size index i n_directions = elim (ltb 1 size) [
  | false ↦ some invalid
  | true ↦ elim (ceil_lg size) [
    | none ↦ none
    | some depth ↦
        let mask = 2 ^ (depth - 1) % 2 ^ 32 in
        elim (not (bit_and index mask == 0)) [
          | true ↦
              if n_directions == i
              then some right
              else direction_loop fuel (size - mask) (index - mask) i ((n_directions + 1) % 256)
          | false ↦
              if n_directions == i
              then some left
              else direction_loop fuel mask index i ((n_directions + 1) % 256)
        ]
  ]
]

-- `size` halves, rounded up, at least: 32 rounds are enough for 32-bit sizes.
unfoldable pub merkle_get_ith_direction : ℕ → ℕ → ℕ → Option Direction
merkle_get_ith_direction size index i =
    if leb size 1 || leb size index then some invalid else direction_loop 33 size index i 0
