-- ===== src/Client/Tests.antt =====
-- Runs of the functions of handler/lib with a client, and the theorems on them there.
use app_bitcoin_new.Prelude.{
  ℕ, ◌≢◌, ◌≡◌, refl, arith, List, [], ◌∷◌, ◌++◌, take, replicate, length, length-append,
  length-take, ◌⊎◌, Option, none, some, ◌+◌,
}
use app_bitcoin_new.Varint.{varint_size, varint_read, varint_write}
use app_bitcoin_new.Bytes.{read_u16_le}
use app_bitcoin_new.Buffer.{
  buffer_read_bytes, buffer_read_u8, buffer_seek_cur, buffer_create, buffer_can_read,
  buffer_read_varint, buffer_write_bytes,
}
use app_bitcoin_new.Merkle.{
  Direction, merkle_combine_hashes, merkle_get_ith_direction, direction_loop, ceil_lg, ceil_lg_loop,
}
use app_bitcoin_new.Merkle.Tree.{Tree, leaf, node, way, walk}
use app_bitcoin_new.Client.{
  Context, Call, diverges, failed, done, Incoming, received, set_response, apdu_parser, accept,
  exchange, process_interruption, interrupt, check, add_to_response, finalize_response,
}
use app_bitcoin_new.Client.LeafHash.{
  bytes_eq, memcmp_eq, varint_bytes, send_proof_request, proof_start, proof_rounds, proof_elements,
  combine_step, skip_hash, call_get_merkle_leaf_hash,
}
use app_bitcoin_new.Client.Preimage.{
  call_get_preimage, call_get_merkle_preimage, preimage_start, more_bytes, preimage_rounds,
  compare_hash, send_preimage_request,
}
use app_bitcoin_new.Client.Preimage.Sound.{call_get_preimage-digest}
use app_bitcoin_new.Merkle.{merkle_compute_element_hash}
use app_bitcoin_new.Client.Map.Value.{map_of, call_get_merkleized_map_value_hash-OnTheWay}
use app_bitcoin_new.Client.LeafHash.Ends.{proof_rounds-Ends}
use app_bitcoin_new.Client.Map.Leaf.{call_get_merkle_leaf_index-leaf}
use app_bitcoin_new.Client.Map.{
  call_get_merkleized_map_value_hash, fail_as, leaf_index_answer, return_int,
  call_get_merkle_leaf_index,
}
use app_bitcoin_new.Client.Map.Lookup.{call_get_merkle_leaf_index-OnTheWay}
use app_bitcoin_new.Client.LeafHash.Sound.{Collision, root_hash}
use app_bitcoin_new.Client.LeafHash.Accepted.{OnTheWay, call_get_merkle_leaf_hash-Reaches}

-- a digest that keeps the first 32 bytes
abbrev pub front : List ℕ → List ℕ
front x = take 32 (x ++ replicate 32 0)

front-length : (x : List ℕ) → length (front x) ≡ 32
front-length x =
    omega (arith, length-take {0} 32 (x ++ replicate 32 0), length-append {0} x (replicate 32 0))

abbrev two : Tree (List ℕ)
two = node (leaf (replicate 32 7)) (leaf (replicate 32 9))

abbrev answer : List ℕ
answer = replicate 32 9 ++ (1 ∷ 1 ∷ replicate 32 7)

abbrev before : Context
before = record {
  address = 0;
  read_buffer = buffer_create 0 [] 0;
  incoming = received (0xF8 ∷ 0x01 ∷ 0 ∷ 0 ∷ 66 ∷ answer) 71 ∷ [];
  output = [];
  responses = [];
}

abbrev behind : Context
behind = record {
  address = 0;
  read_buffer = record { address = 0; ptr = answer; size = 66; offset = 66 };
  incoming = [];
  output = [];
  responses = (0x41 ∷ (root_hash front two ++ (2 ∷ 1 ∷ [])), 0xE000) ∷ [];
}

accepted :
    call_get_merkle_leaf_hash front 2 1 (root_hash front two) before ≡ done (replicate 32 9) behind
unfolding call_get_merkle_leaf_hash send_proof_request add_to_response finalize_response
    varint_bytes varint_write interrupt process_interruption exchange accept apdu_parser
    buffer_create check proof_start buffer_read_bytes buffer_read_u8 buffer_seek_cur proof_rounds
    proof_elements combine_step skip_hash merkle_combine_hashes merkle_get_ith_direction
    direction_loop ceil_lg ceil_lg_loop memcmp_eq bytes_eq buffer_can_read varint_size
accepted = refl

call_get_merkle_leaf_hash-Reaches_example : OnTheWay front two 1 (replicate 32 9) ⊎ Collision front
call_get_merkle_leaf_hash-Reaches_example =
    call_get_merkle_leaf_hash-Reaches front two 1 before (replicate 32 9) behind front-length
      (tt, tt, (0, refl), omega arith) (omega arith) (refl, refl) (omega arith, tt) accepted

result : {A : Type 0} → Call A → Option A
result (done a dc) = some a
result diverges = none
result (failed code dc) = none

-- a message of the client: the header, then the data
abbrev pub message : List ℕ → Incoming
message answer = received (0xF8 ∷ 0x01 ∷ 0 ∷ 0 ∷ length answer ∷ answer) (5 + length answer)

abbrev pub with_messages : List Incoming → Context
with_messages messages = record {
  address = 0;
  read_buffer = buffer_create 0 [] 0;
  incoming = messages;
  output = [];
  responses = [];
}

-- three bytes in chunks of two and one
abbrev chunks : Context
chunks = with_messages (message (3 ∷ 2 ∷ 5 ∷ 6 ∷ []) ∷ message (1 ∷ 1 ∷ 7 ∷ []) ∷ [])

abbrev chunks_behind : Context
chunks_behind = record {
  address = 0;
  read_buffer = record { address = 0; ptr = 1 ∷ 1 ∷ 7 ∷ []; size = 3; offset = 2 };
  incoming = [];
  output = [];
  responses = (0xA0 ∷ [], 0xE000) ∷ (0x40 ∷ 0 ∷ front (5 ∷ 6 ∷ 7 ∷ []), 0xE000) ∷ [];
}

abbrev three_out : List ℕ
three_out = 5 ∷ 6 ∷ 7 ∷ 0 ∷ []

abbrev three : List ℕ
three = 5 ∷ 6 ∷ 7 ∷ []

got_three :
    call_get_preimage front 0 (replicate 4 0) 4 (front three) chunks
    ≡ done (3, 5 ∷ 6 ∷ 7 ∷ 0 ∷ []) chunks_behind
unfolding call_get_preimage preimage_start more_bytes preimage_rounds compare_hash
    send_preimage_request set_response add_to_response finalize_response interrupt
    process_interruption exchange accept apdu_parser buffer_create check buffer_read_u8
    buffer_read_varint varint_read buffer_seek_cur buffer_write_bytes buffer_can_read memcmp_eq
    bytes_eq
got_three = refl

call_get_preimage-digest_example :
    (take 32 (front (take 3 three_out)) ≡ take 32 (front three)) × (length (take 3 three_out) ≡ 3)
call_get_preimage-digest_example =
    call_get_preimage-digest front 0 (replicate 4 0) 4 (front three) chunks 3 three_out
      chunks_behind (omega arith) (omega arith)
      ((omega arith, omega arith), ((omega arith, omega arith), tt)) (omega arith) got_three

-- A length in three bytes and two more bytes in the second message: the preimage is 0, 5, 6, 7, and the
-- array is left with 7, 8, 9.
abbrev shifted : Context
shifted =
    with_messages
      (message (0xFD ∷ 4 ∷ 0 ∷ 1 ∷ 0 ∷ []) ∷ message (3 ∷ 1 ∷ 5 ∷ 6 ∷ 7 ∷ 8 ∷ 9 ∷ []) ∷ [])

stale_pointer :
    result (call_get_merkle_preimage front 0 (replicate 3 0) 3 (front (0 ∷ three)) shifted)
    ≡ some (3, 7 ∷ 8 ∷ 9 ∷ [])
unfolding result call_get_merkle_preimage preimage_start more_bytes preimage_rounds compare_hash
    send_preimage_request set_response add_to_response finalize_response interrupt
    process_interruption exchange accept apdu_parser buffer_create check buffer_read_u8
    buffer_read_varint varint_read read_u16_le buffer_seek_cur buffer_write_bytes buffer_can_read
    memcmp_eq bytes_eq
stale_pointer = refl

-- the leaf at index 1, and its proof
abbrev lookup : Context
lookup = with_messages (message (1 ∷ 1 ∷ []) ∷ message answer ∷ [])

abbrev lookup_behind : Context
lookup_behind = record {
  address = 0;
  read_buffer = record { address = 0; ptr = answer; size = 66; offset = 66 };
  incoming = [];
  output = [];
  responses =
      (0x41 ∷ (root_hash front two ++ (2 ∷ 1 ∷ [])), 0xE000)
      ∷ (0x42 ∷ (root_hash front two ++ replicate 32 9), 0xE000)
      ∷ [];
}

found :
    call_get_merkle_leaf_index front 2 (root_hash front two) (replicate 32 9) lookup
    ≡ done 1 lookup_behind
unfolding call_get_merkle_leaf_index leaf_index_answer fail_as return_int buffer_read_varint
    varint_read set_response call_get_merkle_leaf_hash send_proof_request add_to_response
    finalize_response varint_bytes varint_write interrupt process_interruption exchange accept
    apdu_parser buffer_create check proof_start buffer_read_bytes buffer_read_u8 buffer_seek_cur
    proof_rounds proof_elements combine_step skip_hash merkle_combine_hashes
    merkle_get_ith_direction direction_loop ceil_lg ceil_lg_loop memcmp_eq bytes_eq buffer_can_read
    varint_size
found = refl

call_get_merkle_leaf_index-OnTheWay_example :
    OnTheWay front two 1 (replicate 32 9) ⊎ Collision front
call_get_merkle_leaf_index-OnTheWay_example =
    call_get_merkle_leaf_index-OnTheWay front two (replicate 32 9) lookup 1 lookup_behind
      front-length (tt, tt, (0, refl), omega arith) (omega arith) (refl, refl) refl
      ((omega arith, omega arith), ((omega arith, omega arith), tt)) found

-- a map with two keys: the key hashes to the leaf at index 1 of the keys, and the value is the leaf there
abbrev pub a_key : List ℕ
a_key = 3 ∷ []

abbrev pub keys : Tree (List ℕ)
keys = node (leaf (replicate 32 7)) (leaf (front (0 ∷ a_key)))

abbrev pub key_answer : List ℕ
key_answer = front (0 ∷ a_key) ++ (1 ∷ 1 ∷ replicate 32 7)

abbrev map_lookup : Context
map_lookup = with_messages (message (1 ∷ 1 ∷ []) ∷ message key_answer ∷ message answer ∷ [])

abbrev map_behind : Context
map_behind = record {
  address = 0;
  read_buffer = record { address = 0; ptr = answer; size = 66; offset = 66 };
  incoming = [];
  output = [];
  responses =
      (0x41 ∷ (root_hash front two ++ (2 ∷ 1 ∷ [])), 0xE000)
      ∷ (0x41 ∷ (root_hash front keys ++ (2 ∷ 1 ∷ [])), 0xE000)
      ∷ (0x42 ∷ (root_hash front keys ++ front (0 ∷ a_key)), 0xE000)
      ∷ [];
}

value_found :
    call_get_merkleized_map_value_hash front (map_of front keys two) a_key 1 map_lookup
    ≡ done (replicate 32 9) map_behind
unfolding call_get_merkleized_map_value_hash merkle_compute_element_hash call_get_merkle_leaf_index
    leaf_index_answer fail_as return_int buffer_read_varint varint_read set_response
    call_get_merkle_leaf_hash send_proof_request add_to_response finalize_response varint_bytes
    varint_write interrupt process_interruption exchange accept apdu_parser buffer_create check
    proof_start buffer_read_bytes buffer_read_u8 buffer_seek_cur proof_rounds proof_elements
    combine_step skip_hash merkle_combine_hashes merkle_get_ith_direction direction_loop ceil_lg
    ceil_lg_loop memcmp_eq bytes_eq buffer_can_read varint_size
value_found = refl

call_get_merkleized_map_value_hash-OnTheWay_example :
    ((index : ℕ) × OnTheWay front keys index (merkle_compute_element_hash front a_key 1)
      × OnTheWay front two index (replicate 32 9))
    ⊎ Collision front
call_get_merkleized_map_value_hash-OnTheWay_example =
    call_get_merkleized_map_value_hash-OnTheWay front keys two a_key 1 map_lookup (replicate 32 9)
      map_behind front-length (tt, tt, (0, refl), omega arith) (tt, tt, (0, refl), omega arith) refl
      (omega arith) (refl, refl) (refl, refl)
      ((omega arith, omega arith), ((omega arith, omega arith), ((omega arith, omega arith), tt)))
      value_found

abbrev key_lookup : Context
key_lookup = with_messages (message (1 ∷ 1 ∷ []) ∷ message key_answer ∷ [])

abbrev key_behind : Context
key_behind = record {
  address = 0;
  read_buffer = record { address = 0; ptr = key_answer; size = 66; offset = 66 };
  incoming = [];
  output = [];
  responses =
      (0x41 ∷ (root_hash front keys ++ (2 ∷ 1 ∷ [])), 0xE000)
      ∷ (0x42 ∷ (root_hash front keys ++ front (0 ∷ a_key)), 0xE000)
      ∷ [];
}

key_found :
    call_get_merkle_leaf_index front 2
      (root_hash front keys)
      (merkle_compute_element_hash front a_key 1)
      key_lookup
    ≡ done 1 key_behind
unfolding merkle_compute_element_hash call_get_merkle_leaf_index leaf_index_answer fail_as
    return_int buffer_read_varint varint_read set_response call_get_merkle_leaf_hash
    send_proof_request add_to_response finalize_response varint_bytes varint_write interrupt
    process_interruption exchange accept apdu_parser buffer_create check proof_start
    buffer_read_bytes buffer_read_u8 buffer_seek_cur proof_rounds proof_elements combine_step
    skip_hash merkle_combine_hashes merkle_get_ith_direction direction_loop ceil_lg ceil_lg_loop
    memcmp_eq bytes_eq buffer_can_read varint_size
key_found = refl

call_get_merkle_leaf_index-leaf_example :
    ((ds : List Direction) × (rest : List Direction) × (way keys 1 ≡ ds ++ rest)
      × (walk keys ds ≡ some (leaf (merkle_compute_element_hash front a_key 1))))
    ⊎ Collision front
call_get_merkle_leaf_index-leaf_example =
    call_get_merkle_leaf_index-leaf front keys a_key 1 key_lookup 1 key_behind front-length
      (tt, tt, (0, refl), omega arith) (omega arith) (refl, refl)
      ((omega arith, omega arith), ((omega arith, omega arith), tt)) key_found

-- The leaf's hash came alone; its sibling comes in a message of its own.
abbrev one_by_one : Context
one_by_one = with_messages (message (1 ∷ 32 ∷ replicate 32 7) ∷ [])

proof_rounds-Ends_example : proof_rounds front 2 1 2 0 1 0 (replicate 32 9) one_by_one ≢ diverges
proof_rounds-Ends_example =
    proof_rounds-Ends front two 1 (tt, tt, (0, refl), omega arith) (omega arith) 2 0 1 0
      (replicate 32 9) one_by_one (omega arith) (omega arith) (omega arith, tt)
