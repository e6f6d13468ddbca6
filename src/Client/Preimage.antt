-- ===== src/Client/Preimage.antt =====
-- handler/lib/get_preimage.c and handler/lib/get_merkle_preimage.c: the preimage of a hash from the client,
-- in chunks. The state of the device's hash is the bytes that it was updated with.
pub mod Sound
pub mod Written
pub mod Length
use app_bitcoin_new.Prelude.{
  ℕ, zero, suc, ◌+◌, ◌-◌, ◌*◌, ◌%◌, ◌^◌, List, [], ◌∷◌, ◌++◌, Option, none, some, Bool, true, false,
  not, ◌||◌, take, drop, length, ltb, ◌==◌, if◌then◌else◌,
}
use app_bitcoin_new.Buffer.{
  Buffer, buffer_create, buffer_can_read, buffer_get_cur, buffer_read_u8, buffer_read_varint,
  buffer_write_bytes, sub_size,
}
use app_bitcoin_new.Client.{
  Context, Call, diverges, failed, done, add_to_response, finalize_response, set_response,
  interrupt, check, ◌>>=◌, sw_interrupted_execution,
}
use app_bitcoin_new.Client.LeafHash.{memcmp_eq, ccmd_get_more_elements, call_get_merkle_leaf_hash}

abbrev pub ccmd_get_preimage : ℕ
ccmd_get_preimage = 0x40

unfoldable pub send_preimage_request : List ℕ → Context → Context
send_preimage_request hash dc =
    let dc0 = add_to_response (ccmd_get_preimage ∷ []) dc in
    let dc1 = add_to_response (0 ∷ []) dc0 in
    let dc2 = add_to_response (take 32 hash) dc1 in finalize_response sw_interrupted_execution dc2

-- The first answer: the preimage's length and the length of the first chunk.
unfoldable pub preimage_start : Buffer → Option ((ℕ × ℕ) × Buffer)
preimage_start b =
    let (ok0, preimage_len, b0) = buffer_read_varint b in
    let (ok1, partial_data_len, b1) = buffer_read_u8 b0 in
    if not ok0 || not ok1 || not (buffer_can_read b1 partial_data_len)
    then none
    else some ((preimage_len, partial_data_len), b1)

-- The answer to CCMD_GET_MORE_ELEMENTS: the number of elements, and the length of each.
unfoldable pub more_bytes : Buffer → Option ((ℕ × ℕ) × Buffer)
more_bytes b =
    let (ok0, n_bytes, b0) = buffer_read_u8 b in
    let (ok1, elements_len, b1) = buffer_read_u8 b0 in
    if not ok0 || not ok1 || not (buffer_can_read b1 (n_bytes * elements_len))
    then none
    else some ((n_bytes, elements_len), b1)

-- The `while` loop of both functions, whose error codes start at `code`; `source` is what the pointer
-- that is copied from holds. It leaves the bytes that were hashed, and `out_buffer`.
module _ (code : ℕ) (source : Context → List ℕ) where
  unfoldable pub preimage_rounds : ℕ → ℕ → List ℕ → Buffer → Context → Call (List ℕ × Buffer)
  preimage_rounds zero bytes_remaining hashed out_buffer dc = diverges
  preimage_rounds (suc fuel) bytes_remaining hashed out_buffer dc = elim (bytes_remaining == 0) [
    | true ↦ done (hashed, out_buffer) dc
    | false ↦
        interrupt code (set_response (ccmd_get_more_elements ∷ []) sw_interrupted_execution dc)
        >>= λ _ dc0. check (code + 1) (more_bytes dc0.read_buffer) dc0 >>= λ got dc1.
            elim (got.1 == 1) [
              | false ↦ failed (code + 2) dc1
              | true ↦ elim (ltb bytes_remaining got.0) [
                | true ↦ failed (code + 3) dc1
                | false ↦
                    preimage_rounds fuel (bytes_remaining - got.0)
                      (hashed ++ take got.0 (buffer_get_cur dc1.read_buffer))
                      (buffer_write_bytes out_buffer (source dc1) got.0).1 dc1
              ]
            ]
  ]

-- `out_address`, `out` and `out_len` are the array of the caller; the array is left, and the result
-- before its conversion to `int`.
module _ (sha256 : List ℕ → List ℕ) (out_address : ℕ) (out : List ℕ) (out_len : ℕ) where
  -- the hash is compared, and the result is `result`
  unfoldable pub compare_hash : ℕ → List ℕ → ℕ → List ℕ × Buffer → Context → Call (ℕ × List ℕ)
  compare_hash code hash result got dc =
      if memcmp_eq 32 (sha256 got.0) hash then done (result, got.1.ptr) dc else failed code dc

  unfoldable pub call_get_preimage : List ℕ → Context → Call (ℕ × List ℕ)
  call_get_preimage hash dc = interrupt 1 (send_preimage_request hash dc) >>= λ _ dc0.
      check 2 (preimage_start dc0.read_buffer) dc0 >>= λ start dc1.
      let preimage_len = start.0 % 2 ^ 32 in
      elim (ltb preimage_len 1) [
        | true ↦ failed 3 dc1
        | false ↦ elim (ltb preimage_len start.1) [
          | true ↦ failed 4 dc1
          | false ↦
              preimage_rounds 5 (λ d. buffer_get_cur d.read_buffer) (suc (length dc1.incoming))
                (preimage_len - start.1) (take start.1 (buffer_get_cur dc1.read_buffer))
                (buffer_write_bytes (buffer_create out_address out out_len)
                  (buffer_get_cur dc1.read_buffer) start.1).1
                dc1
              >>= compare_hash 9 hash preimage_len
        ]
      ]

  -- In its loop, the pointer that is copied from is that of the first answer: the same place in the buffer
  -- that all messages are received in.
  unfoldable pub call_get_merkle_preimage : List ℕ → Context → Call (ℕ × List ℕ)
  call_get_merkle_preimage hash dc = interrupt 1 (send_preimage_request hash dc) >>= λ _ dc0.
      check 2 (preimage_start dc0.read_buffer) dc0 >>= λ start dc1.
      if start.0 == 0 || start.1 == 0
      then failed 3 dc1
      else (if ltb out_len (start.0 - 1)
          then failed 4 dc1
          else (if ltb start.0 start.1
              then failed 5 dc1
              else (preimage_rounds 6 (λ d. drop dc1.read_buffer.offset d.read_buffer.ptr)
                    (suc (length dc1.incoming)) (sub_size (start.0 % 2 ^ 32) start.1)
                    (take start.1 (buffer_get_cur dc1.read_buffer))
                    (buffer_write_bytes (buffer_create out_address out out_len)
                      (drop 1 (buffer_get_cur dc1.read_buffer)) (start.1 - 1)).1
                    dc1
                  >>= compare_hash 10 hash (start.0 - 1))))

  unfoldable pub call_get_merkle_leaf_element : List ℕ → ℕ → ℕ → Context → Call (ℕ × List ℕ)
  call_get_merkle_leaf_element merkle_root tree_size leaf_index dc =
      call_get_merkle_leaf_hash sha256 tree_size leaf_index merkle_root dc >>= λ leaf_hash dc0.
      call_get_merkle_preimage leaf_hash dc0
