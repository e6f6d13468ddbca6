-- ===== src/Client/LeafHash.antt =====
-- handler/lib/get_merkle_leaf_hash.c: a leaf's hash from the client, with its Merkle proof.
pub mod Proof
pub mod Accepted
pub mod Messages
pub mod Sound
pub mod Ends
use app_bitcoin_new.Prelude.{
  ℕ, zero, suc, ◌+◌, ◌-◌, ◌*◌, List, [], ◌∷◌, Option, none, some, Bool, true, false, not, ◌||◌,
  take, replicate, length, ltb, ◌==◌, if◌then◌else◌,
}
use app_bitcoin_new.Varint.{varint_write}
use app_bitcoin_new.Buffer.{
  Buffer, buffer_can_read, buffer_get_cur, buffer_read_bytes, buffer_read_u8, buffer_seek_cur,
}
use app_bitcoin_new.Merkle.{
  Direction, invalid, left, right, merkle_combine_hashes, merkle_get_ith_direction,
}
use app_bitcoin_new.Client.{
  Context, Call, diverges, failed, done, add_to_response, finalize_response, set_response,
  interrupt, check, ◌>>=◌, sw_interrupted_execution,
}

abbrev pub ccmd_get_merkle_leaf_proof : ℕ
ccmd_get_merkle_leaf_proof = 0x41

abbrev pub ccmd_get_more_elements : ℕ
ccmd_get_more_elements = 0xA0

unfoldable pub bytes_eq : List ℕ → List ℕ → Bool
bytes_eq [] [] = true
bytes_eq [] (y ∷ ys) = false
bytes_eq (x ∷ xs) [] = false
bytes_eq (x ∷ xs) (y ∷ ys) = let rest = bytes_eq xs ys in if x == y then rest else false

-- `memcmp(a, b, n) == 0`
unfoldable pub memcmp_eq : ℕ → List ℕ → List ℕ → Bool
memcmp_eq n a b = bytes_eq (take n a) (take n b)

-- The bytes that `varint_write(tmp, 0, value)` leaves at the front of `tmp`.
unfoldable pub varint_bytes : ℕ → List ℕ
varint_bytes value = elim (varint_write (replicate 9 0) 0 value) [
  | none ↦ []
  | some (len, tmp) ↦ take len tmp
]

unfoldable pub send_proof_request : List ℕ → ℕ → ℕ → Context → Context
send_proof_request merkle_root tree_size leaf_index dc =
    let dc0 = add_to_response (ccmd_get_merkle_leaf_proof ∷ []) dc in
    let dc1 = add_to_response (take 32 merkle_root) dc0 in
    let dc2 = add_to_response (varint_bytes tree_size) dc1 in
    let dc3 = add_to_response (varint_bytes leaf_index) dc2 in
    finalize_response sw_interrupted_execution dc3

-- The buffer of a context, moved over the bytes of one hash.
unfoldable pub skip_hash : Context → Context
skip_hash dc = record dc { read_buffer = (buffer_seek_cur dc.read_buffer 32).1 }

-- The answer to CCMD_GET_MORE_ELEMENTS: the number of elements; `none` is a failed check.
unfoldable pub more_elements : ℕ → ℕ → Buffer → Option (ℕ × Buffer)
more_elements proof_size cur_step b =
    let (ok0, n, b0) = buffer_read_u8 b in
    let (ok1, elements_len, b1) = buffer_read_u8 b0 in
    if not ok0 || not ok1 || not (buffer_can_read b1 (n * elements_len))
    then none
    else (if not (elements_len == 32)
        then none
        else (if ltb proof_size (cur_step + n) then none else some (n, b1)))

-- The first answer: the leaf's hash, the size of the proof, the number of elements that follow.
unfoldable pub proof_start : Buffer → Option ((List ℕ × ℕ × ℕ) × Buffer)
proof_start b = elim (buffer_read_bytes b 32) [
  | none ↦ none
  | some (cur_hash, b0) ↦
      let (ok1, proof_size, b1) = buffer_read_u8 b0 in
      let (ok2, n, b2) = buffer_read_u8 b1 in
      if not ok1 || not ok2
      then none
      else (if ltb proof_size n
          then none
          else (if not (buffer_can_read b2 (32 * n))
              then none
              else some ((cur_hash, proof_size, n), b2)))
]

module _ (sha256 : List ℕ → List ℕ) where
  -- fails. `next` goes on with the new `cur_hash`.
  unfoldable pub combine_step {ℓ} :
      {A : Type ℓ} → Option Direction → List ℕ → List ℕ → Context → (List ℕ → Call A) → Call A
  combine_step none cur_hash sibling_hash dc next = diverges
  combine_step (some left) cur_hash sibling_hash dc next =
      next (merkle_combine_hashes sha256 cur_hash sibling_hash)
  combine_step (some right) cur_hash sibling_hash dc next =
      next (merkle_combine_hashes sha256 sibling_hash cur_hash)
  combine_step (some invalid) cur_hash sibling_hash dc next = failed 1 dc

module _ (sha256 : List ℕ → List ℕ) (tree_size leaf_index : ℕ) where
  -- The `for` loop over the `n` elements that are left of a message.
  unfoldable pub proof_elements : ℕ → ℕ → ℕ → List ℕ → Context → Call (ℕ × List ℕ)
  proof_elements zero proof_size cur_step cur_hash dc = done (cur_step, cur_hash) dc
  proof_elements (suc n) proof_size cur_step cur_hash dc =
      combine_step sha256
        (merkle_get_ith_direction tree_size leaf_index (proof_size - cur_step - 1)) cur_hash
        (buffer_get_cur dc.read_buffer) dc
        (λ next_hash. proof_elements n proof_size (cur_step + 1) next_hash (skip_hash dc))

  -- The `while` loop. A round but the last takes a command of the client, with or without elements, so
  -- that fuel of one more than the commands still to come serves all of them.
  unfoldable pub proof_rounds : ℕ → ℕ → ℕ → ℕ → List ℕ → Context → Call (List ℕ)
  proof_rounds zero n proof_size cur_step cur_hash dc = diverges
  proof_rounds (suc fuel) n proof_size cur_step cur_hash dc =
      proof_elements n proof_size cur_step cur_hash dc >>= λ reached dc0.
      elim (reached.0 == proof_size) [
        | true ↦ done reached.1 dc0
        | false ↦
            interrupt 1 (set_response (ccmd_get_more_elements ∷ []) sw_interrupted_execution dc0)
            >>= λ _ dc1.
                check 1 (more_elements proof_size reached.0 dc1.read_buffer) dc1 >>= λ n' dc2.
                proof_rounds fuel n' proof_size reached.0 reached.1 dc2
      ]

  -- The result 0 is `done` with the array `out`; after a failure, `out` may hold an unverified hash.
  unfoldable pub call_get_merkle_leaf_hash : List ℕ → Context → Call (List ℕ)
  call_get_merkle_leaf_hash merkle_root dc =
      interrupt 1 (send_proof_request merkle_root tree_size leaf_index dc) >>= λ _ dc0.
      check 1 (proof_start dc0.read_buffer) dc0 >>= λ start dc1.
      proof_rounds (suc (length dc1.incoming)) start.2 start.1 0 start.0 dc1 >>= λ cur_hash dc2.
      if memcmp_eq 32 merkle_root cur_hash then done start.0 dc2 else failed 1 dc2
