-- ===== src/Merkle/Tree.antt =====
-- The trees that common/merkle.c has in mind, as data.
use app_bitcoin_new.Prelude.{
  ℕ, ◌+◌, ◌-◌, ◌^◌, ◌≤◌, ◌≡◌, List, [], ◌∷◌, ◌++◌, ltb, Option, none, some, if◌then◌else◌,
}
use app_bitcoin_new.Merkle.{Direction, left, right}

pub data Tree (A : Type 0) : Type 0 where
  leaf : A → Tree A
  node : Tree A → Tree A → Tree A

abbrev pub size : {A : Type 0} → Tree A → ℕ
size (leaf a) = 1
size (node l r) = size l + size r

-- The left subtree of a node holds a power of two of leaves, and no fewer than the right one.
abbrev pub IsMerkle : {A : Type 0} → Tree A → Type 0
IsMerkle (leaf a) = Unit {0}
IsMerkle (node l r) = IsMerkle l × IsMerkle r × ((k : ℕ) × (size l ≡ 2 ^ k)) × (size r ≤ size l)

-- The way from the root to the leaf with the given index, counted from the left.
unfoldable pub way : {A : Type 0} → Tree A → ℕ → List Direction
way (leaf a) index = []
way (node l r) index =
    let go_left : List Direction = left ∷ way l index in
    let go_right : List Direction = right ∷ way r (index - size l) in
    if ltb index (size l) then go_left else go_right

-- The subtree at the end of a way.
unfoldable pub walk : {A : Type 0} → Tree A → List Direction → Option (Tree A)
walk t [] = some t
walk (leaf a) (d ∷ ds) = none
walk (node l r) (Direction.invalid ∷ ds) = none
walk (node l r) (left ∷ ds) = walk l ds
walk (node l r) (right ∷ ds) = walk r ds

abbrev pub leaves : {A : Type 0} → Tree A → List A
leaves (leaf a) = a ∷ []
leaves (node l r) = leaves l ++ leaves r
