-- ===== src/Bytes.antt =====
-- common/read.c and common/write.c: integers of 16, 32 and 64 bits in both byte orders.
-- A memory region is the list of its bytes; the pointer is the start of the region.
pub mod Value
pub mod RoundTrip
mod Tests
use app_bitcoin_new.Prelude.{ℕ, ◌+◌, ◌*◌, ◌/◌, ◌%◌, ◌^◌, ◌<◌, bit_or, List, get_or, set}

abbrev pub IsByte : ℕ → Type 0
IsByte b = b < 256

-- `ptr[i]`; a region that is too short reads as 0 there.
abbrev pub at : List ℕ → ℕ → ℕ
at ptr i = get_or ptr i 0

-- `(uintN_t) x << k`, for N = w
abbrev pub shl : ℕ → ℕ → ℕ → ℕ
shl w x k = x * 2 ^ k % 2 ^ w

-- `(uint8_t) (value >> k)`
abbrev pub byte : ℕ → ℕ → ℕ
byte value k = value / 2 ^ k % 256

unfoldable pub read_u16_be : List ℕ → ℕ → ℕ
read_u16_be ptr offset = bit_or (shl 16 (at ptr (offset + 0)) 8) (shl 16 (at ptr (offset + 1)) 0)

unfoldable pub read_u32_be : List ℕ → ℕ → ℕ
read_u32_be ptr offset =
    bit_or
      (bit_or (bit_or (shl 32 (at ptr (offset + 0)) 24) (shl 32 (at ptr (offset + 1)) 16))
        (shl 32 (at ptr (offset + 2)) 8))
      (shl 32 (at ptr (offset + 3)) 0)

unfoldable pub read_u64_be : List ℕ → ℕ → ℕ
read_u64_be ptr offset =
    bit_or
      (bit_or
        (bit_or
          (bit_or
            (bit_or
              (bit_or (bit_or (shl 64 (at ptr (offset + 0)) 56) (shl 64 (at ptr (offset + 1)) 48))
                (shl 64 (at ptr (offset + 2)) 40))
              (shl 64 (at ptr (offset + 3)) 32))
            (shl 64 (at ptr (offset + 4)) 24))
          (shl 64 (at ptr (offset + 5)) 16))
        (shl 64 (at ptr (offset + 6)) 8))
      (shl 64 (at ptr (offset + 7)) 0)

unfoldable pub read_u16_le : List ℕ → ℕ → ℕ
read_u16_le ptr offset = bit_or (shl 16 (at ptr (offset + 0)) 0) (shl 16 (at ptr (offset + 1)) 8)

unfoldable pub read_u32_le : List ℕ → ℕ → ℕ
read_u32_le ptr offset =
    bit_or
      (bit_or (bit_or (shl 32 (at ptr (offset + 0)) 0) (shl 32 (at ptr (offset + 1)) 8))
        (shl 32 (at ptr (offset + 2)) 16))
      (shl 32 (at ptr (offset + 3)) 24)

unfoldable pub read_u64_le : List ℕ → ℕ → ℕ
read_u64_le ptr offset =
    bit_or
      (bit_or
        (bit_or
          (bit_or
            (bit_or
              (bit_or (bit_or (shl 64 (at ptr (offset + 0)) 0) (shl 64 (at ptr (offset + 1)) 8))
                (shl 64 (at ptr (offset + 2)) 16))
              (shl 64 (at ptr (offset + 3)) 24))
            (shl 64 (at ptr (offset + 4)) 32))
          (shl 64 (at ptr (offset + 5)) 40))
        (shl 64 (at ptr (offset + 6)) 48))
      (shl 64 (at ptr (offset + 7)) 56)

-- The writers return the region as they leave it.
unfoldable pub write_u16_be : List ℕ → ℕ → ℕ → List ℕ
write_u16_be ptr offset value =
    set (set ptr (offset + 0) (byte value 8)) (offset + 1) (byte value 0)

unfoldable pub write_u32_be : List ℕ → ℕ → ℕ → List ℕ
write_u32_be ptr offset value =
    let ptr0 = set ptr (offset + 0) (byte value 24) in
    let ptr1 = set ptr0 (offset + 1) (byte value 16) in
    let ptr2 = set ptr1 (offset + 2) (byte value 8) in set ptr2 (offset + 3) (byte value 0)

unfoldable pub write_u64_be : List ℕ → ℕ → ℕ → List ℕ
write_u64_be ptr offset value =
    let ptr0 = set ptr (offset + 0) (byte value 56) in
    let ptr1 = set ptr0 (offset + 1) (byte value 48) in
    let ptr2 = set ptr1 (offset + 2) (byte value 40) in
    let ptr3 = set ptr2 (offset + 3) (byte value 32) in
    let ptr4 = set ptr3 (offset + 4) (byte value 24) in
    let ptr5 = set ptr4 (offset + 5) (byte value 16) in
    let ptr6 = set ptr5 (offset + 6) (byte value 8) in set ptr6 (offset + 7) (byte value 0)

unfoldable pub write_u16_le : List ℕ → ℕ → ℕ → List ℕ
write_u16_le ptr offset value =
    set (set ptr (offset + 0) (byte value 0)) (offset + 1) (byte value 8)

unfoldable pub write_u32_le : List ℕ → ℕ → ℕ → List ℕ
write_u32_le ptr offset value =
    let ptr0 = set ptr (offset + 0) (byte value 0) in
    let ptr1 = set ptr0 (offset + 1) (byte value 8) in
    let ptr2 = set ptr1 (offset + 2) (byte value 16) in set ptr2 (offset + 3) (byte value 24)

unfoldable pub write_u64_le : List ℕ → ℕ → ℕ → List ℕ
write_u64_le ptr offset value =
    let ptr0 = set ptr (offset + 0) (byte value 0) in
    let ptr1 = set ptr0 (offset + 1) (byte value 8) in
    let ptr2 = set ptr1 (offset + 2) (byte value 16) in
    let ptr3 = set ptr2 (offset + 3) (byte value 24) in
    let ptr4 = set ptr3 (offset + 4) (byte value 32) in
    let ptr5 = set ptr4 (offset + 5) (byte value 40) in
    let ptr6 = set ptr5 (offset + 6) (byte value 48) in set ptr6 (offset + 7) (byte value 56)
