-- ===== src/Client/Map/Value.antt =====
-- What `call_get_merkleized_map_value_hash` finds.
use app_bitcoin_new.Prelude.{ℕ, ◌%◌, ◌^◌, ◌≤◌, ◌≡◌, arith, List, length, inl, inr, ◌⊎◌, All}
use app_bitcoin_new.Merkle.Tree.{Tree, size, IsMerkle}
use app_bitcoin_new.Client.{Context, done, >>=-eq-done}
use app_bitcoin_new.Client.Received.{Fits}
use app_bitcoin_new.Client.LeafHash.{call_get_merkle_leaf_hash}
use app_bitcoin_new.Client.LeafHash.Sound.{Collision, root_hash, OfHashes}
use app_bitcoin_new.Client.LeafHash.Accepted.{OnTheWay, call_get_merkle_leaf_hash-Reaches}
use app_bitcoin_new.Client.LeafHash.Messages.{call_get_merkle_leaf_hash-AllFit}
use app_bitcoin_new.Merkle.{merkle_compute_element_hash}
use app_bitcoin_new.Client.Map.Lookup.{
  fail_as-eq-done, leaf_index-eq-done, call_get_merkle_leaf_index-OnTheWay,
}
use app_bitcoin_new.Client.Map.{
  MerkleizedMapCommitment, call_get_merkleized_map_value_hash, fail_as, call_get_merkle_leaf_index,
}

-- The map of two trees of the same size.
abbrev pub map_of : (List ℕ → List ℕ) → Tree (List ℕ) → Tree (List ℕ) → MerkleizedMapCommitment
map_of sha256 keys values = record {
  size = size keys;
  keys_root = root_hash sha256 keys;
  values_root = root_hash sha256 values;
}

-- Where the digest gives 32 bytes, the map is given by the roots of two Merkle trees of the same size, of at most
-- 2 ^ 31 hashes, and no message is longer than the APDU buffer or than 32 bits tell: if
-- `call_get_merkleized_map_value_hash` succeeds, then for one index, the hash of the key is that of a subtree on the
-- way that `way` gives in the tree of keys, and `out` is that of a subtree on the way in the tree of
-- values, or two different inputs of the digest with the same digest are found.
pub call_get_merkleized_map_value_hash-OnTheWay :
    (sha256 : List ℕ → List ℕ) (keys values : Tree (List ℕ)) (key : List ℕ) (key_len : ℕ)
    (dc : Context) (out : List ℕ) (dc' : Context)
    → ((x : List ℕ) → length (sha256 x) ≡ 32)
    → IsMerkle keys
    → IsMerkle values
    → size values ≡ size keys
    → size keys ≤ 2 ^ 31
    → OfHashes keys
    → OfHashes values
    → All Fits dc.incoming
    → call_get_merkleized_map_value_hash sha256 (map_of sha256 keys values) key key_len dc
      ≡ done out dc'
    → ((index : ℕ) × OnTheWay sha256 keys index (merkle_compute_element_hash sha256 key key_len)
        × OnTheWay sha256 values index out)
      ⊎ Collision sha256
unfolding call_get_merkleized_map_value_hash merkle_compute_element_hash
call_get_merkleized_map_value_hash-OnTheWay sha256 keys values key key_len dc out dc' digest mk mv
      same small ok ov fits e =
    let m = map_of sha256 keys values in
    let hash = merkle_compute_element_hash sha256 key key_len in
    let find = call_get_merkle_leaf_index sha256 (size keys) (root_hash sha256 keys) hash dc in
    let (index, dc1, e1, e2) =
      >>=-eq-done (fail_as 1 find)
        (λ i d. call_get_merkle_leaf_hash sha256 (size keys % 2 ^ 32) i (root_hash sha256 values) d)
        e in
    let e1' = fail_as-eq-done 1 find index dc1 e1 in
    let (d, returned, fits0, call, _) =
      leaf_index-eq-done sha256 (size keys) (root_hash sha256 keys) hash index dc1 dc fits e1' in
    let fits1 =
      call_get_merkle_leaf_hash-AllFit sha256 (size keys % 2 ^ 32) index (root_hash sha256 keys) d
        returned dc1 fits0 call in
    let whole : size keys % 2 ^ 32 ≡ size values = omega arith in
    elim (call_get_merkle_leaf_index-OnTheWay sha256 keys hash dc index dc1 digest mk small ok
      (digest _) fits e1') [
        | inr collision ↦ inr collision
        | inl key_on ↦
            elim (call_get_merkle_leaf_hash-Reaches sha256 values index dc1 out dc' digest mv
              (omega arith) ov fits1 (rw whole at e2)) [
                | inr collision ↦ inr collision
                | inl value_on ↦ inl (index, key_on, value_on)
              ]
      ]

-- What is still to come fits after a success, too.
pub call_get_merkleized_map_value_hash-AllFit :
    (sha256 : List ℕ → List ℕ) (m : MerkleizedMapCommitment) (key : List ℕ) (key_len : ℕ)
    (dc : Context) (out : List ℕ) (dc' : Context)
    → All Fits dc.incoming
    → call_get_merkleized_map_value_hash sha256 m key key_len dc ≡ done out dc'
    → All Fits dc'.incoming
unfolding call_get_merkleized_map_value_hash
call_get_merkleized_map_value_hash-AllFit sha256 m key key_len dc out dc' fits e =
    let hash = merkle_compute_element_hash sha256 key key_len in
    let find = call_get_merkle_leaf_index sha256 m.size m.keys_root hash dc in
    let (index, dc1, e1, e2) =
      >>=-eq-done (fail_as 1 find)
        (λ i d. call_get_merkle_leaf_hash sha256 (m.size % 2 ^ 32) i m.values_root d) e in
    let (d, returned, fits0, call, _) =
      leaf_index-eq-done sha256 m.size m.keys_root hash index dc1 dc fits
        (fail_as-eq-done 1 find index dc1 e1) in
    let fits1 =
      call_get_merkle_leaf_hash-AllFit sha256 (m.size % 2 ^ 32) index m.keys_root d returned dc1
        fits0 call in
    call_get_merkle_leaf_hash-AllFit sha256 (m.size % 2 ^ 32) index m.values_root dc1 out dc' fits1
      e2
