-- ===== src/Client/Stream.antt =====
-- handler/lib/stream_preimage.c: a preimage from the client whose parts go to a callback.
pub mod Sound
pub mod Rounds
pub mod Values
use app_bitcoin_new.Prelude.{
  ℕ, zero, suc, ◌+◌, ◌-◌, ◌%◌, ◌^◌, List, [], ◌∷◌, ◌++◌, Option, none, some, Bool, true, false,
  take, drop, length, ltb, ◌==◌, if◌then◌else◌,
}
use app_bitcoin_new.Buffer.{Buffer, buffer_create, buffer_get_cur, sub_size}
use app_bitcoin_new.Client.{
  Context, Call, diverges, failed, done, set_response, interrupt, check, ◌>>=◌,
  sw_interrupted_execution,
}
use app_bitcoin_new.Client.LeafHash.{memcmp_eq, ccmd_get_more_elements}
use app_bitcoin_new.Client.Preimage.{send_preimage_request, preimage_start, more_bytes}

-- What follows a callback; `none` is one that does not return.
unfoldable pub after_callback : {A B : Type 0} → Option A → (A → Call B) → Call B
after_callback none go = diverges
after_callback (some state) go = go state

-- `buffer_create(data_ptr, n)`, where the pointer is `skip` bytes behind the cursor
unfoldable pub part_at : Context → ℕ → ℕ → Buffer
part_at dc skip n =
    buffer_create (dc.read_buffer.address + dc.read_buffer.offset + skip)
      (drop skip (buffer_get_cur dc.read_buffer)) n

module _ {State : Type 0} (callback : Buffer → State → Option State) where
  -- One call for each part, in turn.
  unfoldable pub calls : List Buffer → State → Option State
  calls [] state = some state
  calls (part ∷ parts) state = elim (callback part state) [
    | none ↦ none
    | some state' ↦ calls parts state'
  ]

  -- The `while` loop. It leaves the bytes that were hashed, and the state of the callback. A round but the last
  -- takes a command of the client.
  unfoldable pub stream_rounds : ℕ → ℕ → List ℕ → State → Context → Call (List ℕ × State)
  stream_rounds zero bytes_remaining hashed state dc = diverges
  stream_rounds (suc fuel) bytes_remaining hashed state dc = elim (bytes_remaining == 0) [
    | true ↦ done (hashed, state) dc
    | false ↦
        interrupt 5 (set_response (ccmd_get_more_elements ∷ []) sw_interrupted_execution dc)
        >>= λ _ dc0. check 6 (more_bytes dc0.read_buffer) dc0 >>= λ got dc1. elim (got.1 == 1) [
          | false ↦ failed 7 dc1
          | true ↦ elim (ltb bytes_remaining got.0) [
            | true ↦ failed 8 dc1
            | false ↦ after_callback (callback (part_at dc1 0 got.0) state) (λ state'.
                stream_rounds fuel (bytes_remaining - got.0)
                  (hashed ++ take got.0 (buffer_get_cur dc1.read_buffer)) state' dc1)
          ]
        ]
  ]

  -- The hash is compared, and the result is `result`.
  unfoldable pub compare_stream :
      (List ℕ → List ℕ) → List ℕ → ℕ → List ℕ × State → Context → Call (ℕ × State)
  compare_stream sha256 hash result got dc =
      if memcmp_eq 32 (sha256 got.0) hash then done (result, got.1) dc else failed 9 dc

  -- The result before its conversion to `int`, and the state of the callbacks, which is not kept after a
  -- failure. Without a `len_callback` that is the identity.
  unfoldable pub call_stream_preimage :
      (List ℕ → List ℕ) → (ℕ → State → State) → List ℕ → State → Context → Call (ℕ × State)
  call_stream_preimage sha256 len_callback hash state dc =
      interrupt 1 (send_preimage_request hash dc) >>= λ _ dc0.
      check 2 (preimage_start dc0.read_buffer) dc0 >>= λ start dc1.
      let preimage_len = start.0 % 2 ^ 32 in
      elim (ltb preimage_len 1) [
        | true ↦ failed 3 dc1
        | false ↦ elim (ltb preimage_len start.1) [
          | true ↦ failed 4 dc1
          | false ↦
              after_callback
                (callback (part_at dc1 1 (sub_size start.1 1))
                  (len_callback (preimage_len - 1) state))
                (λ state'.
                  stream_rounds (suc (length dc1.incoming)) (preimage_len - start.1)
                    (take start.1 (buffer_get_cur dc1.read_buffer)) state' dc1)
              >>= compare_stream sha256 hash (preimage_len - 1)
        ]
      ]
