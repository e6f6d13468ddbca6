-- ===== src/Client/Map.antt =====
-- handler/lib/get_merkle_leaf_index.c, get_merkleized_map_value_hash.c and get_merkleized_map_value.c: the
-- place of a leaf in a tree, and the value of a key in a map that is given by two trees.
pub mod Leaf
pub mod Lookup
pub mod Value
use app_bitcoin_new.Prelude.{
  ℕ, ◌-◌, ◌%◌, ◌^◌, List, [], ◌∷◌, ◌++◌, Option, none, some, Bool, true, false, not, ◌||◌, ◌&&◌,
  take, ltb, ◌==◌, if◌then◌else◌,
}
use app_bitcoin_new.Buffer.{Buffer, buffer_read_u8, buffer_read_varint}
use app_bitcoin_new.Merkle.{merkle_compute_element_hash}
use app_bitcoin_new.Client.{
  Context, Call, diverges, failed, done, set_response, interrupt, check, ◌>>=◌,
  sw_interrupted_execution,
}
use app_bitcoin_new.Client.LeafHash.{memcmp_eq, call_get_merkle_leaf_hash}
use app_bitcoin_new.Client.Preimage.{call_get_merkle_leaf_element}

abbrev pub ccmd_get_merkle_leaf_index : ℕ
ccmd_get_merkle_leaf_index = 0x42

-- `if (res < 0) return -code;`
unfoldable pub fail_as {ℓ} : {A : Type ℓ} → ℕ → Call A → Call A
fail_as code diverges = diverges
fail_as code (failed code' dc) = failed code dc
fail_as code (done a dc) = done a dc

-- The answer: whether the leaf was found, and its index.
unfoldable pub leaf_index_answer : Buffer → Option ((ℕ × ℕ) × Buffer)
leaf_index_answer b =
    let (ok0, found, b0) = buffer_read_u8 b in
    let (ok1, index, b1) = buffer_read_varint b0 in
    if not ok0 || not ok1 then none else some ((found, index), b1)

-- A 64-bit number that is returned as an `int` of 32 bits.
unfoldable pub return_int : ℕ → Context → Call ℕ
return_int value dc =
    if ltb (value % 2 ^ 32) (2 ^ 31)
    then done (value % 2 ^ 32) dc
    else failed (2 ^ 32 - value % 2 ^ 32) dc

-- `merkleized_map_commitment_t`
pub record MerkleizedMapCommitment : Type 0 where
  pub size : ℕ
  pub keys_root : List ℕ
  pub values_root : List ℕ

module _ (sha256 : List ℕ → List ℕ) where
  -- `uint32_t tree_size` takes the last 32 bits of a size, and `uint32_t leaf_index` those of an index.
  unfoldable pub call_get_merkle_leaf_index : ℕ → List ℕ → List ℕ → Context → Call ℕ
  call_get_merkle_leaf_index size root leaf_hash dc =
      interrupt 3 (
        set_response (ccmd_get_merkle_leaf_index ∷ (take 32 root ++ take 32 leaf_hash))
          sw_interrupted_execution dc)
      >>= λ _ dc0. check 1 (leaf_index_answer dc0.read_buffer) dc0 >>= λ got dc1.
          if not (got.0 == 0) && not (got.0 == 1)
          then failed 2 dc1
          else (if got.0 == 0
              then failed 3 dc1
              else (fail_as 4
                    (call_get_merkle_leaf_hash sha256 (size % 2 ^ 32) (got.1 % 2 ^ 32) root dc1)
                  >>= λ returned dc2.
                      if memcmp_eq 32 leaf_hash returned
                      then return_int got.1 dc2
                      else failed 5 dc2))

  unfoldable pub call_get_merkleized_map_value_hash :
      MerkleizedMapCommitment → List ℕ → ℕ → Context → Call (List ℕ)
  call_get_merkleized_map_value_hash m key key_len dc =
      fail_as 1 (
        call_get_merkle_leaf_index m.size m.keys_root
          (merkle_compute_element_hash sha256 key key_len) dc)
      >>= λ index dc0. call_get_merkle_leaf_hash sha256 (m.size % 2 ^ 32) index m.values_root dc0

  unfoldable pub call_get_merkleized_map_value :
      ℕ → List ℕ → ℕ → MerkleizedMapCommitment → List ℕ → ℕ → Context → Call (ℕ × List ℕ)
  call_get_merkleized_map_value out_address out out_len m key key_len dc =
      fail_as 1 (
        call_get_merkle_leaf_index m.size m.keys_root
          (merkle_compute_element_hash sha256 key key_len) dc)
      >>= λ index dc0.
          call_get_merkle_leaf_element sha256 out_address out out_len m.values_root
            (m.size % 2 ^ 32) index dc0
