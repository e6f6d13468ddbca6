-- ===== src/Buffer/PathRead.antt =====
-- `buffer_read_bip32_path` of common/buffer.c at the end of its input.
use app_bitcoin_new.Prelude.{
  ℕ, ◌+◌, ◌-◌, ◌*◌, ◌%◌, ◌^◌, ◌≤◌, ◌<◌, ◌≡◌, refl, arith, List, true, false,
}
use app_bitcoin_new.Bip32.Read.{bip32_path_read-short}
use app_bitcoin_new.Buffer.{
  Buffer, buffer_read_bip32_path, buffer_seek_cur, buffer_get_cur, sub_size, size_mod,
}
use app_bitcoin_new.Buffer.Invariant.{IsValid}

seek_cur_too_far :
    (b : Buffer) (n : ℕ)
    → IsValid b
    → n < 2 ^ 31
    → b.size < b.offset + n
    → buffer_seek_cur b n ≡ (false, b)
unfolding buffer_seek_cur
seek_cur_too_far b n v small far = ground arith

-- On a valid buffer with one to four bytes too few for a path of up to six steps,
-- `buffer_read_bip32_path` reports success and leaves the cursor where it was.
pub buffer_read_bip32_path-short :
    (b : Buffer) (out : List ℕ) (k : ℕ)
    → IsValid b
    → 1 ≤ k
    → k ≤ 6
    → 4 * (k - 1) ≤ b.size - b.offset
    → b.size - b.offset < 4 * k
    → let r = buffer_read_bip32_path b out k in (r.0 ≡ true) × (r.2 ≡ b)
unfolding buffer_read_bip32_path
buffer_read_bip32_path-short b out k v some few from short =
    let left : sub_size b.size b.offset ≡ b.size - b.offset = omega arith in
    let ok =
      bip32_path_read-short k (buffer_get_cur b) (b.size - b.offset) out some few from short in
    let n : 4 * k % size_mod ≡ 4 * k = omega arith in
    let stay = seek_cur_too_far b (4 * k) v (omega arith) (omega arith) in
    rw (left, ok, n, stay) (refl, refl)
