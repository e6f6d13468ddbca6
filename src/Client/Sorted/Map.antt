-- ===== src/Client/Sorted/Map.antt =====
-- handler/lib/get_merkleized_map.c: a map's commitment, whose tree of keys is checked to be in order.
use app_bitcoin_new.Prelude.{ℕ, ◌+◌, ◌*◌, ◌%◌, ◌^◌, List, Option, none, some, not, if◌then◌else◌}
use app_bitcoin_new.Buffer.{Buffer, buffer_create, buffer_read_varint, buffer_read_bytes}
use app_bitcoin_new.Client.{Context, Call, failed, done, ◌>>=◌}
use app_bitcoin_new.Client.Map.{MerkleizedMapCommitment, fail_as}
use app_bitcoin_new.Client.Preimage.{call_get_merkle_leaf_element}
use app_bitcoin_new.Client.Sorted.{call_check_merkle_tree_sorted_with_callback}

-- The size of `raw_output`
abbrev pub raw_output_size : ℕ
raw_output_size = 9 + 2 * 32

-- `none` is a failed read.
unfoldable pub read_commitment : Buffer → Option MerkleizedMapCommitment
read_commitment buf =
    let (ok, size, b0) = buffer_read_varint buf in
    if not ok then none else elim (buffer_read_bytes b0 32) [
      | none ↦ none
      | some (keys_root, b1) ↦ elim (buffer_read_bytes b1 32) [
        | none ↦ none
        | some (values_root, b2) ↦
            some (record { size = size; keys_root = keys_root; values_root = values_root })
      ]
    ]

-- `raw_output`, `cur_el` and `prev_el` are arrays that are not initialised, the first two at `address`. The
-- result 0 is `done`, with the commitment and the state of the callback.
unfoldable pub call_get_merkleized_map_with_callback :
    {State : Type 0}
    → (List ℕ → List ℕ)
    → ℕ
    → List ℕ
    → (ℕ → List ℕ)
    → List ℕ
    → List ℕ
    → ℕ
    → ℕ
    → Option (Buffer → State → Option State)
    → State
    → Context
    → Call (MerkleizedMapCommitment × State)
call_get_merkleized_map_with_callback sha256 address raw_output cur_el prev_el root size index
      keys_callback state dc =
    fail_as 1 (
      call_get_merkle_leaf_element sha256 address raw_output raw_output_size root (size % 2 ^ 32)
        (index % 2 ^ 32) dc)
    >>= λ element dc0. elim (read_commitment (buffer_create address element.1 element.0)) [
      | none ↦ failed 1 dc0
      | some out ↦
          call_check_merkle_tree_sorted_with_callback sha256 out.keys_root (out.size % 2 ^ 32)
            address cur_el keys_callback prev_el state dc0
          >>= λ state' dc1. done (out, state') dc1
    ]
