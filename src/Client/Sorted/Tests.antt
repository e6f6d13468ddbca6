-- ===== src/Client/Sorted/Tests.antt =====
-- A run of the check of the keys, and the theorems of it.
use app_bitcoin_new.Prelude.{
  ℕ, suc, ◌≡◌, refl, List, [], ◌∷◌, ◌++◌, Option, none, some, length, replicate,
}
use app_bitcoin_new.Merkle.Tree.{leaf, node}
use app_bitcoin_new.Client.LeafHash.Sound.{root_hash}
use app_bitcoin_new.Client.Tests.{front, message, with_messages}
use app_bitcoin_new.Client.Sorted.Increasing.{
  Run, Increasing, call_check_merkle_tree_sorted-Increasing,
}
use app_bitcoin_new.Varint.{varint_size, varint_read, varint_write}
use app_bitcoin_new.Merkle.{
  merkle_compute_element_hash, merkle_combine_hashes, ceil_lg_loop, ceil_lg, direction_loop,
  merkle_get_ith_direction,
}
use app_bitcoin_new.Buffer.{
  Buffer, buffer_create, buffer_can_read, buffer_seek_cur, buffer_read_u8, buffer_read_varint,
  buffer_read_bytes, buffer_write_bytes, alloc_padding,
}
use app_bitcoin_new.Client.{
  Context, Call, diverges, failed, done, apdu_parser, add_to_response, finalize_response,
  set_response, accept, exchange, process_interruption, interrupt, check,
}
use app_bitcoin_new.Client.LeafHash.{
  bytes_eq, memcmp_eq, varint_bytes, send_proof_request, skip_hash, more_elements, proof_start,
  combine_step, proof_elements, proof_rounds, call_get_merkle_leaf_hash,
}
use app_bitcoin_new.Client.Map.{fail_as, leaf_index_answer, return_int, call_get_merkle_leaf_index}
use app_bitcoin_new.Client.Preimage.{
  send_preimage_request, preimage_start, more_bytes, preimage_rounds, compare_hash,
  call_get_merkle_preimage, call_get_merkle_leaf_element,
}
use app_bitcoin_new.Client.Stream.{after_callback}
use app_bitcoin_new.Client.Sorted.{
  compare_byte_arrays-lexicographic, memcmp, by_length, prefix_or, compare_byte_arrays, not_smaller,
  call_if_any, get_element, sorted_rounds, call_check_merkle_tree_sorted_with_callback,
  lexicographic,
}

abbrev hash_of : ℕ → List ℕ
hash_of key = front (0 ∷ key ∷ [])

-- The keys are a byte each, 3 and 5.
abbrev root : List ℕ
root = root_hash front (node (leaf (hash_of 3)) (leaf (hash_of 5)))

abbrev messages : Context
messages = with_messages (
    message (hash_of 3 ++ (1 ∷ 1 ∷ hash_of 5))
    ∷ message (2 ∷ 2 ∷ 0 ∷ 3 ∷ [])
    ∷ message (hash_of 5 ++ (1 ∷ 1 ∷ hash_of 3))
    ∷ message (2 ∷ 2 ∷ 0 ∷ 5 ∷ [])
    ∷ [])

context_of : {A : Type 0} → Call A → Context
context_of (done a dc) = dc
context_of diverges = messages
context_of (failed code dc) = dc

abbrev array : List ℕ
array = replicate 80 0

-- a callback that counts its calls
abbrev count : Option (Buffer → ℕ → Option ℕ)
count = some (λ buf calls. some (suc calls))

abbrev checked : Call ℕ
checked =
    call_check_merkle_tree_sorted_with_callback front root 2 0 (λ i. array) count array 4 messages

passes : checked ≡ done 6 (context_of checked)
unfolding varint_size varint_read varint_write merkle_compute_element_hash merkle_combine_hashes
    ceil_lg_loop ceil_lg direction_loop merkle_get_ith_direction buffer_create buffer_can_read
    buffer_seek_cur buffer_read_u8 buffer_read_varint buffer_read_bytes buffer_write_bytes
    alloc_padding apdu_parser add_to_response finalize_response set_response accept exchange
    process_interruption interrupt check bytes_eq memcmp_eq varint_bytes send_proof_request
    skip_hash more_elements proof_start combine_step proof_elements proof_rounds
    call_get_merkle_leaf_hash fail_as leaf_index_answer return_int call_get_merkle_leaf_index
    send_preimage_request preimage_start more_bytes preimage_rounds compare_hash
    call_get_merkle_preimage call_get_merkle_leaf_element after_callback memcmp by_length prefix_or
    compare_byte_arrays not_smaller call_if_any get_element sorted_rounds
    call_check_merkle_tree_sorted_with_callback lexicographic context_of
passes = refl

call_check_merkle_tree_sorted-Increasing_example :
    (elements : List (List ℕ)) × (length elements ≡ 2)
    × Run front root 2 0 (λ i. array) count 0 elements 4 messages 6 (context_of checked)
    × Increasing none elements
call_check_merkle_tree_sorted-Increasing_example =
    call_check_merkle_tree_sorted-Increasing front root 2 0 (λ i. array) count array 4 messages 6
      (context_of checked) (λ i. refl) refl passes

abbrev longer : List ℕ
longer = 3 ∷ 4 ∷ []

abbrev shorter : List ℕ
shorter = 3 ∷ []

compare_byte_arrays-lexicographic_example :
    compare_byte_arrays longer (length longer) shorter (length shorter)
    ≡ lexicographic longer shorter
compare_byte_arrays-lexicographic_example = compare_byte_arrays-lexicographic longer shorter
