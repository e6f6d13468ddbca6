-- ===== src/Buffer.antt =====
-- common/buffer.c and common/buffer.h: a cursor over a region of memory.
-- `size_t` has 32 bits, as on the device.
pub mod Invariant
pub mod Stream
pub mod PathRead
pub mod RoundTrip
mod Tests
use app_bitcoin_new.Prelude.{
  ℕ, suc, ◌+◌, ◌-◌, ◌*◌, ◌%◌, ◌^◌, List, [], ◌∷◌, Bool, true, false, ◌||◌, Option, none, some, drop,
  take, set, put_at, length, ltb, leb, ◌==◌, if◌then◌else◌,
}
use app_bitcoin_new.Bytes.{
  at, read_u16_be, read_u32_be, read_u64_be, read_u16_le, read_u32_le, read_u64_le, write_u16_be,
  write_u32_be, write_u64_be, write_u16_le, write_u32_le, write_u64_le,
}
use app_bitcoin_new.Varint.{varint_read}
use app_bitcoin_new.Bip32.{bip32_path_read}

abbrev pub size_mod : ℕ
size_mod = 2 ^ 32

-- `size_t` addition and subtraction
abbrev pub add_size : ℕ → ℕ → ℕ
add_size a b = (a + b) % size_mod

abbrev pub sub_size : ℕ → ℕ → ℕ
sub_size a b = (a + size_mod - b) % size_mod

-- `buffer_t`. The pointer is its address and the memory region that starts there.
pub record Buffer : Type 0 where
  pub address : ℕ
  pub ptr : List ℕ
  pub size : ℕ
  pub offset : ℕ

pub data Endianness : Type 0 where
  be le : Endianness

unfoldable pub buffer_create : ℕ → List ℕ → ℕ → Buffer
buffer_create address ptr size = record { address = address; ptr = ptr; size = size; offset = 0 }

-- `buffer_get_cur`, the region from the cursor on
abbrev pub buffer_get_cur : Buffer → List ℕ
buffer_get_cur b = drop b.offset b.ptr

unfoldable pub buffer_snapshot : Buffer → ℕ
buffer_snapshot b = b.offset

unfoldable pub buffer_restore : Buffer → ℕ → Buffer
buffer_restore b snapshot = record b { offset = snapshot }

unfoldable pub buffer_can_read : Buffer → ℕ → Bool
buffer_can_read b n = leb n (sub_size b.size b.offset)

unfoldable pub buffer_seek_set : Buffer → ℕ → Bool × Buffer
buffer_seek_set b offset =
    if ltb b.size offset then (false, b) else (true, record b { offset = offset })

unfoldable pub buffer_seek_cur : Buffer → ℕ → Bool × Buffer
buffer_seek_cur b offset =
    if ltb (add_size b.offset offset) b.offset || ltb b.size (add_size b.offset offset)
    then (false, b)
    else (true, record b { offset = add_size b.offset offset })

unfoldable pub buffer_seek_end : Buffer → ℕ → Bool × Buffer
buffer_seek_end b offset =
    if ltb b.size offset then (false, b) else (true, record b { offset = sub_size b.size offset })

-- A reader returns its result, the value that it stores, and the buffer.
unfoldable pub buffer_read_u8 : Buffer → Bool × ℕ × Buffer
buffer_read_u8 b =
    if buffer_can_read b 1
    then (true, at b.ptr b.offset, (buffer_seek_cur b 1).1)
    else (false, 0, b)

-- `none` is the result false, where nothing is stored.
unfoldable pub buffer_peek : Buffer → Option ℕ
buffer_peek b = if buffer_can_read b 1 then some (at b.ptr b.offset) else none

unfoldable pub buffer_read_u16 : Buffer → Endianness → Bool × ℕ × Buffer
buffer_read_u16 b endianness =
    if buffer_can_read b 2
    then (
      true,
      elim endianness [ be ↦ read_u16_be b.ptr b.offset | le ↦ read_u16_le b.ptr b.offset ],
      (buffer_seek_cur b 2).1,
    )
    else (false, 0, b)

unfoldable pub buffer_read_u32 : Buffer → Endianness → Bool × ℕ × Buffer
buffer_read_u32 b endianness =
    if buffer_can_read b 4
    then (
      true,
      elim endianness [ be ↦ read_u32_be b.ptr b.offset | le ↦ read_u32_le b.ptr b.offset ],
      (buffer_seek_cur b 4).1,
    )
    else (false, 0, b)

unfoldable pub buffer_read_u64 : Buffer → Endianness → Bool × ℕ × Buffer
buffer_read_u64 b endianness =
    if buffer_can_read b 8
    then (
      true,
      elim endianness [ be ↦ read_u64_be b.ptr b.offset | le ↦ read_u64_le b.ptr b.offset ],
      (buffer_seek_cur b 8).1,
    )
    else (false, 0, b)

unfoldable pub buffer_read_varint : Buffer → Bool × ℕ × Buffer
buffer_read_varint b = elim (varint_read (buffer_get_cur b) (sub_size b.size b.offset)) [
  | none ↦ (false, 0, b)
  | some (len, value) ↦ (true, value, (buffer_seek_cur b len).1)
]

-- The result, the array `out` as it is left, and the buffer; `sizeof(*out)` is 4.
unfoldable pub buffer_read_bip32_path : Buffer → List ℕ → ℕ → Bool × List ℕ × Buffer
buffer_read_bip32_path b out out_len =
    let (ok, out') = bip32_path_read (buffer_get_cur b) (sub_size b.size b.offset) out out_len in
    if ok then (true, out', (buffer_seek_cur b (4 * out_len % size_mod)).1) else (false, out', b)

-- The `n` bytes that are copied to `out`, and the buffer; `none` is the result false, where nothing
-- is copied.
unfoldable pub buffer_read_bytes : Buffer → ℕ → Option (List ℕ × Buffer)
buffer_read_bytes b n =
    if ltb (sub_size b.size b.offset) n
    then none
    else some (take n (buffer_get_cur b), (buffer_seek_cur b n).1)

unfoldable pub buffer_write_u8 : Buffer → ℕ → Bool × Buffer
buffer_write_u8 b value =
    if buffer_can_read b 1
    then (true, (buffer_seek_cur (record b { ptr = set b.ptr b.offset value }) 1).1)
    else (false, b)

unfoldable pub buffer_write_u16 : Buffer → ℕ → Endianness → Bool × Buffer
buffer_write_u16 b value endianness =
    let ptr' : List ℕ = elim endianness [
      | be ↦ write_u16_be b.ptr b.offset value
      | le ↦ write_u16_le b.ptr b.offset value
    ] in
    if buffer_can_read b 2
    then (true, (buffer_seek_cur (record b { ptr = ptr' }) 2).1)
    else (false, b)

unfoldable pub buffer_write_u32 : Buffer → ℕ → Endianness → Bool × Buffer
buffer_write_u32 b value endianness =
    let ptr' : List ℕ = elim endianness [
      | be ↦ write_u32_be b.ptr b.offset value
      | le ↦ write_u32_le b.ptr b.offset value
    ] in
    if buffer_can_read b 4
    then (true, (buffer_seek_cur (record b { ptr = ptr' }) 4).1)
    else (false, b)

unfoldable pub buffer_write_u64 : Buffer → ℕ → Endianness → Bool × Buffer
buffer_write_u64 b value endianness =
    let ptr' : List ℕ = elim endianness [
      | be ↦ write_u64_be b.ptr b.offset value
      | le ↦ write_u64_le b.ptr b.offset value
    ] in
    if buffer_can_read b 8
    then (true, (buffer_seek_cur (record b { ptr = ptr' }) 8).1)
    else (false, b)

-- The source bytes are the first `n` of `src`.
unfoldable pub buffer_write_bytes : Buffer → List ℕ → ℕ → Bool × Buffer
buffer_write_bytes b src n =
    if buffer_can_read b n
    then (true, (buffer_seek_cur (record b { ptr = put_at b.ptr b.offset (take n src) }) n).1)
    else (false, b)

-- The padding that brings the address of the cursor to a multiple of four.
unfoldable pub alloc_padding : Buffer → Bool → ℕ
alloc_padding b aligned =
    let d = (b.address + b.offset) % 2 ^ 32 % 4 in
    if aligned then (if d == 0 then 0 else 4 - d) else 0

-- The result is the place of the allocated block, counted from the pointer of the buffer; `none` is
-- the result NULL, where the buffer is unchanged.
unfoldable pub buffer_alloc : Buffer → ℕ → Bool → Option (ℕ × Buffer)
buffer_alloc b size aligned =
    let padding_size = alloc_padding b aligned in
    if buffer_can_read b (add_size padding_size size)
    then some (b.offset + padding_size, (buffer_seek_cur b (add_size padding_size size)).1)
    else none
