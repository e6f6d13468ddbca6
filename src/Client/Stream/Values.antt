-- ===== src/Client/Stream/Values.antt =====
-- handler/lib/stream_merkle_leaf_element.c and handler/lib/stream_merkleized_map_value.c
use app_bitcoin_new.Prelude.{ℕ, ◌%◌, ◌^◌, List, Option}
use app_bitcoin_new.Buffer.{Buffer}
use app_bitcoin_new.Merkle.{merkle_compute_element_hash}
use app_bitcoin_new.Client.{Context, Call, ◌>>=◌}
use app_bitcoin_new.Client.LeafHash.{call_get_merkle_leaf_hash}
use app_bitcoin_new.Client.Map.{MerkleizedMapCommitment, call_get_merkle_leaf_index, fail_as}
use app_bitcoin_new.Client.Stream.{call_stream_preimage}

module _ {State : Type 0} (callback : Buffer → State → Option State) (sha256 : List ℕ → List ℕ)
    (len_callback : ℕ → State → State) where
  unfoldable pub call_stream_merkle_leaf_element :
      List ℕ → ℕ → ℕ → State → Context → Call (ℕ × State)
  call_stream_merkle_leaf_element merkle_root tree_size leaf_index state dc =
      fail_as 1 (call_get_merkle_leaf_hash sha256 tree_size leaf_index merkle_root dc)
      >>= λ leaf_hash dc0. call_stream_preimage callback sha256 len_callback leaf_hash state dc0

  unfoldable pub call_stream_merkleized_map_value :
      MerkleizedMapCommitment → List ℕ → ℕ → State → Context → Call (ℕ × State)
  call_stream_merkleized_map_value m key key_len state dc =
      fail_as 1 (
        call_get_merkle_leaf_index sha256 m.size m.keys_root
          (merkle_compute_element_hash sha256 key key_len) dc)
      >>= λ index dc0.
          call_stream_merkle_leaf_element m.values_root (m.size % 2 ^ 32) index state dc0
