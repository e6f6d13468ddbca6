-- ===== src/Varint.antt =====
-- common/varint.c: Bitcoin's variable-length integers of 1, 3, 5 or 9 bytes.
pub mod RoundTrip
pub mod Bounds
mod Tests
use app_bitcoin_new.Prelude.{
  ℕ, ◌+◌, ◌^◌, ◌%◌, List, Option, none, some, set, leb, ltb, ◌==◌, if◌then◌else◌,
}
use app_bitcoin_new.Bytes.{
  at, read_u16_le, read_u32_le, read_u64_le, write_u16_le, write_u32_le, write_u64_le,
}

unfoldable pub varint_size : ℕ → ℕ
varint_size value =
    if leb value 0xFC
    then 1
    else (if leb value 0xFFFF then 3 else (if leb value 0xFFFF_FFFF then 5 else 9))

-- The length that `varint_read` returns, with the value that it stores; `none` is the result -1,
-- where nothing is stored.
unfoldable pub varint_read : List ℕ → ℕ → Option (ℕ × ℕ)
varint_read src in_len =
    if ltb in_len 1
    then none
    else let prefix = at src 0 in
      if prefix == 0xFD
      then (if ltb in_len 3 then none else some (3, read_u16_le src 1))
      else (if prefix == 0xFE
          then (if ltb in_len 5 then none else some (5, read_u32_le src 1))
          else (if prefix == 0xFF
              then (if ltb in_len 9 then none else some (9, read_u64_le src 1))
              else some (1, prefix)))

-- The length that `varint_write` returns, with the region as it leaves it; `none` is the result -1.
unfoldable pub varint_write : List ℕ → ℕ → ℕ → Option (ℕ × List ℕ)
varint_write out offset value =
    let varint_len = varint_size value in
    if varint_len == 1
    then some (varint_len, set out offset (value % 256))
    else (if varint_len == 3
        then some (varint_len, write_u16_le (set out offset 0xFD) (offset + 1) (value % 2 ^ 16))
        else (if varint_len == 5
            then some (varint_len, write_u32_le (set out offset 0xFE) (offset + 1) (value % 2 ^ 32))
            else (if varint_len == 9
                then some (varint_len, write_u64_le (set out offset 0xFF) (offset + 1) value)
                else none)))
