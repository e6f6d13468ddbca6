-- ===== src/Client/Preimage/Written.antt =====
-- What the writes of the chunks leave in the caller's array.
use app_bitcoin_new.Prelude.{
  take-put_at, ℕ, ◌+◌, ◌≤◌, ◌≡◌, ◌∙◌, arith, List, [], ◌∷◌, ◌++◌, length, length-append, take,
  put_at, true, false, ◌||◌, ltb, leb,
}
use app_bitcoin_new.Buffer.{
  Buffer, buffer_can_read, buffer_write_bytes, buffer_seek_cur, sub_size, add_size,
}
use app_bitcoin_new.Buffer.Invariant.{IsValid, run_op, run_ops, run_ops-Kept, write_bytes}

-- The buffer of the caller's array holds the bytes that were hashed, as long as they fit.
unfoldable pub Holds : ℕ → List ℕ → Buffer → Type 0
Holds out_len hashed b =
    IsValid b
    × (b.size ≡ out_len)
    × (length hashed ≤ out_len → (b.offset ≡ length hashed) × (take (length hashed) b.ptr ≡ hashed))

-- A write that fits goes behind what was written before.
written :
    (hashed src : List ℕ) (n : ℕ) (b : Buffer)
    → IsValid b
    → length (take n src) ≡ n
    → b.offset ≡ length hashed
    → take (length hashed) b.ptr ≡ hashed
    → length hashed + n ≤ b.size
    → ((buffer_write_bytes b src n).1.offset ≡ length hashed + n)
      × (take (length hashed + n) (buffer_write_bytes b src n).1.ptr ≡ hashed ++ take n src)
unfolding buffer_write_bytes buffer_can_read buffer_seek_cur
written hashed src n b v len at_end before fits =
    let room : leb n (sub_size b.size b.offset) ≡ true = ground (arith, v.small) in
    let moves : (ltb (add_size b.offset n) b.offset || ltb b.size (add_size b.offset n)) ≡ false =
      ground (arith, v.small) in
    let place : add_size b.offset n ≡ length hashed + n = omega (arith, v.small) in
    let bytes : take (length hashed + n) (put_at b.ptr b.offset (take n src))
        ≡ hashed ++ take n src =
      let put = take-put_at b.ptr (length hashed) (take n src) (omega (arith, len, v.region)) in
      rw at_end (rw (len, before) at put) in
    rw (room, moves) (place, bytes)

pub write_bytes-Holds :
    (out_len : ℕ) (hashed src : List ℕ) (n : ℕ) (b : Buffer)
    → length (take n src) ≡ n
    → Holds out_len hashed b
    → Holds out_len (hashed ++ take n src) (buffer_write_bytes b src n).1
unfolding Holds run_ops run_op
write_bytes-Holds out_len hashed src n b len (v, size, holds) =
    let (v', same) = run_ops-Kept (write_bytes src n ∷ []) b v in
    let total : length (hashed ++ take n src) ≡ length hashed + n =
      omega (arith, length-append {0} hashed (take n src)) in
    (
      v',
      same.size ∙ size,
      λ fits.
          let (at_end, before) = holds (omega arith) in
          rw total (written hashed src n b v len at_end before (omega arith)),
    )
