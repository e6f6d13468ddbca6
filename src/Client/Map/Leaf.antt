-- ===== src/Client/Map/Leaf.antt =====
-- A hash of an element that `call_get_merkle_leaf_index` finds is a leaf's: leaves and nodes are hashed with
-- different first bytes.
use app_bitcoin_new.Prelude.{
  ℕ, ◌^◌, ◌≤◌, ◌≡◌, ap, ◌∙◌, List, ◌∷◌, ◌++◌, length, take, some, inl, inr, ◌⊎◌, All,
}
use app_bitcoin_new.Merkle.{Direction, merkle_combine_hashes, merkle_compute_element_hash}
use app_bitcoin_new.Merkle.Tree.{Tree, leaf, node, size, IsMerkle, way, walk}
use app_bitcoin_new.Client.{Context, done}
use app_bitcoin_new.Client.Received.{Fits}
use app_bitcoin_new.Client.LeafHash.Sound.{Collision, root_hash, OfHashes}
use app_bitcoin_new.Client.Map.{call_get_merkle_leaf_index}
use app_bitcoin_new.Client.Map.Lookup.{call_get_merkle_leaf_index-OnTheWay}

leaf_or_Collision :
    (sha256 : List ℕ → List ℕ) (s : Tree (List ℕ)) (x : List ℕ)
    → root_hash sha256 s ≡ sha256 (0x00 ∷ x)
    → (s ≡ leaf (sha256 (0x00 ∷ x))) ⊎ Collision sha256
unfolding merkle_combine_hashes
leaf_or_Collision sha256 (leaf h) x e = inl (ap leaf e)
leaf_or_Collision sha256 (node l r) x e =
    inr (
      0x01 ∷ (take 32 (root_hash sha256 l) ++ take 32 (root_hash sha256 r)),
      0x00 ∷ x,
      (λ q. cc),
      e,
    )

-- Where the digest gives 32 bytes, the root is that of a Merkle tree of at most 2 ^ 31 hashes, and no message is
-- longer than the APDU buffer or than 32 bits tell: if `call_get_merkle_leaf_index` returns an index for the hash
-- of an element, then a part of the way that `way` gives for the index leads to a leaf with that hash, or two
-- different inputs of the digest with the same digest are found.
pub call_get_merkle_leaf_index-leaf :
    (sha256 : List ℕ → List ℕ) (t : Tree (List ℕ)) (element : List ℕ) (len : ℕ) (dc : Context)
    (index : ℕ) (dc' : Context)
    → ((x : List ℕ) → length (sha256 x) ≡ 32)
    → IsMerkle t
    → size t ≤ 2 ^ 31
    → OfHashes t
    → All Fits dc.incoming
    → call_get_merkle_leaf_index sha256
        (size t)
        (root_hash sha256 t)
        (merkle_compute_element_hash sha256 element len)
        dc
      ≡ done index dc'
    → ((ds : List Direction) × (rest : List Direction) × (way t index ≡ ds ++ rest)
        × (walk t ds ≡ some (leaf (merkle_compute_element_hash sha256 element len))))
      ⊎ Collision sha256
unfolding merkle_compute_element_hash
call_get_merkle_leaf_index-leaf sha256 t element len dc index dc' digest m small o fits e =
    elim (call_get_merkle_leaf_index-OnTheWay sha256 t
      (merkle_compute_element_hash sha256 element len) dc index dc' digest m small o (digest _) fits
      e) [
        | inr collision ↦ inr collision
        | inl (ds, rest, w, (s, found, is)) ↦
            elim (leaf_or_Collision sha256 s (take len element) is) [
              | inr collision ↦ inr collision
              | inl same ↦ inl (ds, rest, w, found ∙ ap some same)
            ]
      ]
