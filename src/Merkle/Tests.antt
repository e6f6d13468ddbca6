-- ===== src/Merkle/Tests.antt =====
-- Runs of common/merkle.c, and the theorems on it at concrete trees.
use app_bitcoin_new.Prelude.{ℕ, ◌*◌, ◌^◌, ◌≤◌, ◌≡◌, refl, arith, none, some, get_or}
use app_bitcoin_new.Merkle.{
  ceil_lg, ceil_lg_loop, merkle_get_ith_direction, direction_loop, right, invalid,
}
use app_bitcoin_new.Merkle.CeilLg.{IsCeilLg, ceil_lg_lem, ceil_lg-diverges}
use app_bitcoin_new.Merkle.Tree.{Tree, leaf, node, IsMerkle, way}
use app_bitcoin_new.Merkle.Ways.{merkle_get_ith_direction-way}

-- five leaves: four on the left
abbrev five : Tree ℕ
five = node (node (node (leaf 0) (leaf 1)) (node (leaf 2) (leaf 3))) (leaf 4)

five-IsMerkle : IsMerkle five
five-IsMerkle = (
  ((tt, tt, (0, refl), omega arith), (tt, tt, (0, refl), omega arith), (1, refl), omega arith),
  tt,
  (2, refl),
  omega arith,
)

second_turn : merkle_get_ith_direction 5 2 1 ≡ some right
unfolding merkle_get_ith_direction direction_loop ceil_lg ceil_lg_loop
second_turn = refl

merkle_get_ith_direction-way_example :
    merkle_get_ith_direction 5 2 1 ≡ some (get_or (way five 2) 1 invalid)
merkle_get_ith_direction-way_example =
    merkle_get_ith_direction-way five 2 1 five-IsMerkle (omega arith) (omega arith)

ceil_lg_lem_example : (d : ℕ) × (ceil_lg 5 ≡ some d) × (d ≤ 31) × IsCeilLg 5 d
ceil_lg_lem_example = ceil_lg_lem 5 (omega arith) (omega arith)

ceil_lg-diverges_example : ceil_lg_loop 1000 (2 ^ 31 * 2) 1 0 ≡ none
ceil_lg-diverges_example = ceil_lg-diverges 1000 (2 ^ 31 * 2) (omega arith)
