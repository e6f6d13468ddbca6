-- ===== src/Buffer/Invariant.antt =====
-- The cursor stays within its region under every call of common/buffer.c.
use app_bitcoin_new.Prelude.{
  ℕ, ◌*◌, ◌%◌, ◌^◌, ◌≤◌, ◌<◌, ◌≡◌, refl, ◌∙◌, arith, List, [], ◌∷◌, Bool, Option, none, some,
  Option-cases, inl, inr, take, set, put_at, length, length-set, length-put_at,
}
use app_bitcoin_new.Bytes.RoundTrip.{
  write_u16_le-put, write_u16_be-put, write_u32_le-put, write_u32_be-put, write_u64_le-put,
  write_u64_be-put, le_bytes, be_bytes,
}
use app_bitcoin_new.Varint.{varint_read}
use app_bitcoin_new.Bytes.{
  write_u16_be, write_u32_be, write_u64_be, write_u16_le, write_u32_le, write_u64_le,
}
use app_bitcoin_new.Buffer.{
  Buffer, Endianness, be, le, add_size, sub_size, buffer_seek_set, buffer_seek_cur, buffer_seek_end,
  buffer_read_u8, buffer_read_u16, buffer_read_u32, buffer_read_u64, buffer_read_varint,
  buffer_read_bip32_path, buffer_read_bytes, buffer_write_u8, buffer_write_u16, buffer_write_u32,
  buffer_write_u64, buffer_write_bytes, buffer_alloc, buffer_get_cur, alloc_padding, size_mod,
}

-- The cursor is within the size, and the region holds that many bytes.
pub record IsValid (b : Buffer) : Type 0 where
  pub within : b.offset ≤ b.size
  pub region : b.size ≤ length b.ptr
  pub small : b.size < 2 ^ 32

-- A call of buffer.c, with its arguments.
pub data Op : Type 0 where
  seek_set seek_cur seek_end read_bytes write_u8 : ℕ → Op
  read_u8 read_varint : Op
  read_u16 read_u32 read_u64 : Endianness → Op
  write_u16 write_u32 write_u64 : ℕ → Endianness → Op
  read_bip32_path write_bytes : List ℕ → ℕ → Op
  alloc : ℕ → Bool → Op

-- The buffer after a call that returns an option.
abbrev pub after {ℓ} : {A : Type ℓ} → Buffer → Option (A × Buffer) → Buffer
after b none = b
after b (some (a, b')) = b'

unfoldable pub run_op : Op → Buffer → Buffer
run_op (seek_set n) b = (buffer_seek_set b n).1
run_op (seek_cur n) b = (buffer_seek_cur b n).1
run_op (seek_end n) b = (buffer_seek_end b n).1
run_op (read_bytes n) b = after b (buffer_read_bytes b n)
run_op (write_u8 v) b = (buffer_write_u8 b v).1
run_op read_u8 b = (buffer_read_u8 b).2
run_op read_varint b = (buffer_read_varint b).2
run_op (read_u16 e) b = (buffer_read_u16 b e).2
run_op (read_u32 e) b = (buffer_read_u32 b e).2
run_op (read_u64 e) b = (buffer_read_u64 b e).2
run_op (write_u16 v e) b = (buffer_write_u16 b v e).1
run_op (write_u32 v e) b = (buffer_write_u32 b v e).1
run_op (write_u64 v e) b = (buffer_write_u64 b v e).1
run_op (read_bip32_path out n) b = (buffer_read_bip32_path b out n).2
run_op (write_bytes src n) b = (buffer_write_bytes b src n).1
run_op (alloc n aligned) b = after b (buffer_alloc b n aligned)

-- The calls of a list, one after the other.
unfoldable pub run_ops : List Op → Buffer → Buffer
run_ops [] b = b
run_ops (op ∷ ops) b = run_ops ops (run_op op b)

-- What no call changes: the region's place and length, and the size.
pub record SameRegion (b b' : Buffer) : Type 0 where
  pub address : b'.address ≡ b.address
  pub size : b'.size ≡ b.size
  pub length_lem : length b'.ptr ≡ length b.ptr

abbrev pub Kept : Buffer → Buffer → Type 0
Kept b b' = IsValid b' × SameRegion b b'

pub length-write_u16_le : (p : List ℕ) (o v : ℕ) → length (write_u16_le p o v) ≡ length p
length-write_u16_le p o v = rw (write_u16_le-put p o v) (length-put_at p o (le_bytes 2 0 v))

pub length-write_u16_be : (p : List ℕ) (o v : ℕ) → length (write_u16_be p o v) ≡ length p
length-write_u16_be p o v = rw (write_u16_be-put p o v) (length-put_at p o (be_bytes 2 v))

pub length-write_u32_le : (p : List ℕ) (o v : ℕ) → length (write_u32_le p o v) ≡ length p
length-write_u32_le p o v = rw (write_u32_le-put p o v) (length-put_at p o (le_bytes 4 0 v))

pub length-write_u32_be : (p : List ℕ) (o v : ℕ) → length (write_u32_be p o v) ≡ length p
length-write_u32_be p o v = rw (write_u32_be-put p o v) (length-put_at p o (be_bytes 4 v))

pub length-write_u64_le : (p : List ℕ) (o v : ℕ) → length (write_u64_le p o v) ≡ length p
length-write_u64_le p o v = rw (write_u64_le-put p o v) (length-put_at p o (le_bytes 8 0 v))

pub length-write_u64_be : (p : List ℕ) (o v : ℕ) → length (write_u64_be p o v) ≡ length p
length-write_u64_be p o v = rw (write_u64_be-put p o v) (length-put_at p o (be_bytes 8 v))

buffer_seek_cur-Kept : (b : Buffer) (n : ℕ) → IsValid b → Kept b (buffer_seek_cur b n).1
unfolding buffer_seek_cur
buffer_seek_cur-Kept b n v = ground arith

-- A region of the same length in place of the old one, and then a move of the cursor.
write-Kept :
    (b : Buffer) (ptr' : List ℕ) (n : ℕ)
    → IsValid b
    → length ptr' ≡ length b.ptr
    → Kept b (buffer_seek_cur (record b { ptr = ptr' }) n).1
unfolding buffer_seek_cur
write-Kept b ptr' n v e = ground arith

read_varint-Kept : (b : Buffer) → IsValid b → Kept b (buffer_read_varint b).2
unfolding buffer_read_varint
read_varint-Kept b v =
    elim (Option-cases (varint_read (buffer_get_cur b) (sub_size b.size b.offset))) [
      | inl e ↦
          rw (e, buffer_read_varint) (v, record { address = refl; size = refl; length_lem = refl })
      | inr ((len, x), e) ↦ rw (e, buffer_read_varint) (buffer_seek_cur-Kept b len v)
    ]

run_op-Kept : (op : Op) (b : Buffer) → IsValid b → Kept b (run_op op b)
unfolding run_op
run_op-Kept (seek_set n) b v = unfold buffer_seek_set in ground arith
run_op-Kept (seek_cur n) b v = buffer_seek_cur-Kept b n v
run_op-Kept (seek_end n) b v = unfold buffer_seek_end in ground arith
run_op-Kept (read_bytes n) b v =
    unfold buffer_read_bytes in ground (arith, buffer_seek_cur-Kept b n v)
run_op-Kept (write_u8 x) b v =
    unfold buffer_write_u8 in
    ground (arith, write-Kept b (set b.ptr b.offset x) 1 v (length-set b.ptr b.offset x))
run_op-Kept read_u8 b v = unfold buffer_read_u8 in ground (arith, buffer_seek_cur-Kept b 1 v)
run_op-Kept read_varint b v = read_varint-Kept b v
run_op-Kept (read_u16 e) b v = unfold buffer_read_u16 in ground (arith, buffer_seek_cur-Kept b 2 v)
run_op-Kept (read_u32 e) b v = unfold buffer_read_u32 in ground (arith, buffer_seek_cur-Kept b 4 v)
run_op-Kept (read_u64 e) b v = unfold buffer_read_u64 in ground (arith, buffer_seek_cur-Kept b 8 v)
run_op-Kept (write_u16 x be) b v =
    unfold buffer_write_u16 in
    ground (
      arith,
      write-Kept b (write_u16_be b.ptr b.offset x) 2 v (length-write_u16_be b.ptr b.offset x),
    )
run_op-Kept (write_u16 x le) b v =
    unfold buffer_write_u16 in
    ground (
      arith,
      write-Kept b (write_u16_le b.ptr b.offset x) 2 v (length-write_u16_le b.ptr b.offset x),
    )
run_op-Kept (write_u32 x be) b v =
    unfold buffer_write_u32 in
    ground (
      arith,
      write-Kept b (write_u32_be b.ptr b.offset x) 4 v (length-write_u32_be b.ptr b.offset x),
    )
run_op-Kept (write_u32 x le) b v =
    unfold buffer_write_u32 in
    ground (
      arith,
      write-Kept b (write_u32_le b.ptr b.offset x) 4 v (length-write_u32_le b.ptr b.offset x),
    )
run_op-Kept (write_u64 x be) b v =
    unfold buffer_write_u64 in
    ground (
      arith,
      write-Kept b (write_u64_be b.ptr b.offset x) 8 v (length-write_u64_be b.ptr b.offset x),
    )
run_op-Kept (write_u64 x le) b v =
    unfold buffer_write_u64 in
    ground (
      arith,
      write-Kept b (write_u64_le b.ptr b.offset x) 8 v (length-write_u64_le b.ptr b.offset x),
    )
run_op-Kept (read_bip32_path out n) b v =
    unfold buffer_read_bip32_path in ground (arith, buffer_seek_cur-Kept b (4 * n % size_mod) v)
run_op-Kept (write_bytes src n) b v =
    unfold buffer_write_bytes in
    ground (
      arith,
      write-Kept b (put_at b.ptr b.offset (take n src)) n v
          (length-put_at b.ptr b.offset (take n src)),
    )
run_op-Kept (alloc n aligned) b v =
    unfold buffer_alloc in
    ground (arith, buffer_seek_cur-Kept b (add_size (alloc_padding b aligned) n) v)

-- From a valid buffer, no sequence of calls of buffer.c moves the cursor beyond the size, gives the
-- buffer another size or place, or changes the length of its region.
pub run_ops-Kept : (ops : List Op) (b : Buffer) → IsValid b → Kept b (run_ops ops b)
unfolding run_ops
run_ops-Kept [] b v = (v, record { address = refl; size = refl; length_lem = refl })
run_ops-Kept (op ∷ ops) b v =
    let k = run_op-Kept op b v in
    let r = run_ops-Kept ops (run_op op b) k.0 in
    (
      r.0,
      record {
        address = r.1.address ∙ k.1.address;
        size = r.1.size ∙ k.1.size;
        length_lem = r.1.length_lem ∙ k.1.length_lem;
      },
    )
