-- ===== src/Client/LeafHash/Sound.antt =====
-- What an accepted Merkle proof says about the tree whose root the device holds.
use app_bitcoin_new.Prelude.{
  take-all, ℕ, zero, suc, ◌+◌, ◌-◌, ◌^◌, ◌≤◌, ◌≡◌, ◌≢◌, refl, sym, ap, ◌∙◌, arith, List, [], ◌∷◌,
  ◌++◌, some, length, length-append, take, drop, get_or, ltb, ◌⊎◌, inl, inr, Bool-cases,
  length-take,
}
use app_bitcoin_new.Merkle.{
  merkle_get_ith_direction, Direction, invalid, left, right, merkle_combine_hashes,
}
use app_bitcoin_new.Merkle.Tree.{Tree, leaf, node, size, IsMerkle, way, walk}
use app_bitcoin_new.Merkle.Ways.{merkle_get_ith_direction-way}
use app_bitcoin_new.Client.LeafHash.Proof.{Step, climb, Follows}
use native.Mathlib.Decide.{ℕ_discrete, dec_lt}

-- Two different inputs with the same digest.
abbrev pub Collision : (List ℕ → List ℕ) → Type 0
Collision sha256 = (x : List ℕ) × (y : List ℕ) × (x ≢ y) × (sha256 x ≡ sha256 y)

bytes_discrete : Discrete (List ℕ)
bytes_discrete = hlevel ℕ_discrete

same_or_Collision :
    (sha256 : List ℕ → List ℕ) (x y : List ℕ) → sha256 x ≡ sha256 y → (x ≡ y) ⊎ Collision sha256
same_or_Collision sha256 x y e = elim (bytes_discrete x y) [
  | yes p ↦ inl p
  | no p ↦ inr (x, y, p, e)
]

append-injective :
    (xs xs' ys ys' : List ℕ)
    → length xs ≡ length xs'
    → xs ++ ys ≡ xs' ++ ys'
    → (xs ≡ xs') × (ys ≡ ys')
append-injective [] [] ys ys' n e = (refl, e)
append-injective [] (x ∷ xs') ys ys' n e = absurd (omega arith)
append-injective (x ∷ xs) [] ys ys' n e = absurd (omega arith)
append-injective (x ∷ xs) (x' ∷ xs') ys ys' n e =
    let (a, b) = append-injective xs xs' ys ys' (omega arith) (cc) in (cc, b)

abbrev pub dirs : List Step → List Direction
dirs [] = []
dirs ((d, s) ∷ steps) = d ∷ dirs steps

drop-get_or :
    (ws : List Direction) (i : ℕ)
    → get_or ws i invalid ≢ invalid
    → drop i ws ≡ get_or ws i invalid ∷ drop (suc i) ws
drop-get_or [] i h = absurd (h refl)
drop-get_or (w ∷ ws) zero h = refl
drop-get_or (w ∷ ws) (suc i) h = drop-get_or ws i h

-- A way that goes on below a node.
way-node :
    {A : Type 0} (l r : Tree A) (index : ℕ) {d : Direction} {ds : List Direction}
    → way (node l r) index ≡ d ∷ ds
    → ((d ≡ left) × (way l index ≡ ds)) ⊎ ((d ≡ right) × (way r (index - size l) ≡ ds))
unfolding way
way-node l r index w = elim (Bool-cases (ltb index (size l))) [
  | inl go_left ↦ let w' = rw go_left at w in inl (cc, cc)
  | inr go_right ↦ let w' = rw go_right at w in inr (cc, cc)
]

some-eq : (a b : Direction) → some a ≡ some b → a ≡ b
some-eq a b e = cc

-- Beyond the leaves, there is no direction.
pub direction-beyond :
    (size index i : ℕ) → size ≤ index → merkle_get_ith_direction size index i ≡ some invalid
unfolding merkle_get_ith_direction
direction-beyond size index i h = ground arith

-- Steps that follow the way to a leaf from depth `i` on go by a part of that way.
pub Follows-way :
    {A : Type 0} (t : Tree A) (index i : ℕ) (steps : List Step)
    → IsMerkle t
    → size t ≤ 2 ^ 31
    → Follows (size t) index i steps
    → drop i (way t index) ≡ dirs steps ++ drop (i + length steps) (way t index)
Follows-way t index i [] m small f = let e : i + 0 ≡ i = omega arith in rw e
Follows-way t index i ((d, s) ∷ steps) m small (at_i, valid, f) = elim (dec_lt index (size t)) [
  | no beyond ↦
      let out_of_range = direction-beyond (size t) index i (omega arith) in
      absurd (valid (some-eq _ _ (sym at_i ∙ out_of_range)))
  | yes lt ↦
      let e : i + suc (length steps) ≡ suc i + length steps = omega arith in
      let here : get_or (way t index) i invalid ≡ d =
        some-eq _ _ (sym (merkle_get_ith_direction-way t index i m small lt) ∙ at_i) in
      rw e (
        drop-get_or (way t index) i (rw here valid)
        ∙ (ap (λ (w : Direction). w ∷ drop (suc i) (way t index)) here
            ∙ ap (◌∷◌ d) (Follows-way t index (suc i) steps m small f)))
]

-- A tree of digests.
abbrev pub OfHashes : Tree (List ℕ) → Type 0
OfHashes (leaf h) = length h ≡ 32
OfHashes (node l r) = OfHashes l × OfHashes r

module _ (sha256 : List ℕ → List ℕ) where
  -- The root's hash of a tree of hashes.
  abbrev pub root_hash : Tree (List ℕ) → List ℕ
  root_hash (leaf h) = h
  root_hash (node l r) = merkle_combine_hashes sha256 (root_hash l) (root_hash r)

  -- A hash that climbs to the root of the tree is that of the subtree that the directions lead to.
  abbrev pub Reaches : Tree (List ℕ) → List Direction → List ℕ → Type 0
  Reaches t ds h = (s : Tree (List ℕ)) × (walk t ds ≡ some s) × (root_hash s ≡ h)

module _ (sha256 : List ℕ → List ℕ) (digest : (x : List ℕ) → length (sha256 x) ≡ 32) where
  combine-length : (a b : List ℕ) → length (merkle_combine_hashes sha256 a b) ≡ 32
  unfolding merkle_combine_hashes
  combine-length a b = digest _

  -- Equal combined hashes come from equal hashes, where all four have 32 bytes or one side has.
  combine-injective :
      (a b c d : List ℕ)
      → length c ≡ 32
      → length d ≡ 32
      → (length a ≡ 32) ⊎ (length b ≡ 32)
      → merkle_combine_hashes sha256 a b ≡ merkle_combine_hashes sha256 c d
      → ((take 32 a ≡ c) × (take 32 b ≡ d)) ⊎ Collision sha256
  unfolding merkle_combine_hashes
  combine-injective a b c d hc hd side e =
      elim (same_or_Collision sha256 (0x01 ∷ (take 32 a ++ take 32 b))
        (0x01 ∷ (take 32 c ++ take 32 d)) e) [
          | inr collision ↦ inr collision
          | inl same ↦
              let joined : take 32 a ++ take 32 b ≡ take 32 c ++ take 32 d = cc in
              let total = ap length joined in
              let (p, q) =
                append-injective (take 32 a) (take 32 c) (take 32 b) (take 32 d)
                  (omega (
                    arith,
                    total,
                    side,
                    length-append {0} (take 32 a) (take 32 b),
                    length-append {0} (take 32 c) (take 32 d),
                    length-take {0} 32 a,
                    length-take {0} 32 b,
                    length-take {0} 32 c,
                    length-take {0} 32 d,
                  ))
                  joined in
              inl (p ∙ take-all 32 c (omega arith), q ∙ take-all 32 d (omega arith))
        ]

  pub climb-length :
      (steps : List Step) (h : List ℕ) → length h ≡ 32 → length (climb sha256 steps h) ≡ 32
  unfolding climb
  climb-length [] h e = e
  climb-length ((left, s) ∷ steps) h e = combine-length (climb sha256 steps h) s
  climb-length ((right, s) ∷ steps) h e = combine-length s (climb sha256 steps h)
  climb-length ((invalid, s) ∷ steps) h e = climb-length steps h e

  pub root_hash-length : (t : Tree (List ℕ)) → OfHashes t → length (root_hash sha256 t) ≡ 32
  root_hash-length (leaf h) o = o
  root_hash-length (node l r) o = combine-length (root_hash sha256 l) (root_hash sha256 r)

  pub climb_sound :
      (t : Tree (List ℕ)) (index : ℕ) (steps : List Step) (rest : List Direction) (h : List ℕ)
      → OfHashes t
      → length h ≡ 32
      → way t index ≡ dirs steps ++ rest
      → climb sha256 steps h ≡ root_hash sha256 t
      → Reaches sha256 t (dirs steps) h ⊎ Collision sha256
  unfolding climb way walk
  climb_sound t index [] rest h o len w e = inl (t, refl, sym e)
  climb_sound (leaf a) index ((d, s) ∷ steps) rest h o len w e = cc
  climb_sound (node l r) index ((invalid, s) ∷ steps) rest h o len w e =
      elim (way-node l r index w) [ inl (p, _) ↦ cc | inr (p, _) ↦ cc ]
  climb_sound (node l r) index ((left, s) ∷ steps) rest h (ol, or) len w e =
      let len_top : length (climb sha256 steps h) ≡ 32 = climb-length steps h len in
      elim (way-node l r index w) [
        | inr (p, _) ↦ cc
        | inl (_, below) ↦
            elim (combine-injective (climb sha256 steps h) s (root_hash sha256 l)
              (root_hash sha256 r) (root_hash-length l ol) (root_hash-length r or) (inl len_top)
              e) [
                | inr collision ↦ inr collision
                | inl (top, _) ↦
                    climb_sound l index steps rest h ol len below
                      (sym (take-all 32 (climb sha256 steps h) (omega (arith, len_top))) ∙ top)
              ]
      ]
  climb_sound (node l r) index ((right, s) ∷ steps) rest h (ol, or) len w e =
      let len_top : length (climb sha256 steps h) ≡ 32 = climb-length steps h len in
      elim (way-node l r index w) [
        | inl (p, _) ↦ cc
        | inr (_, below) ↦
            elim (combine-injective s (climb sha256 steps h) (root_hash sha256 l)
              (root_hash sha256 r) (root_hash-length l ol) (root_hash-length r or) (inr len_top)
              e) [
                | inr collision ↦ inr collision
                | inl (_, top) ↦
                    climb_sound r (index - size l) steps rest h or len below
                      (sym (take-all 32 (climb sha256 steps h) (omega (arith, len_top))) ∙ top)
              ]
      ]
