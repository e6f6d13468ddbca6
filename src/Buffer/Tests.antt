-- ===== src/Buffer/Tests.antt =====
-- Runs of common/buffer.c, and the theorems on it at concrete buffers.
use app_bitcoin_new.Prelude.{ℕ, ◌≡◌, refl, arith, List, [], ◌∷◌, some, true}
use app_bitcoin_new.Bytes.{read_u16_be}
use app_bitcoin_new.Buffer.{
  Buffer, be, le, buffer_read_u8, buffer_read_u16, buffer_read_u32, buffer_read_u64,
  buffer_read_bytes, buffer_write_u16, buffer_write_u32, buffer_write_u64, buffer_read_bip32_path,
  buffer_alloc, alloc_padding, buffer_seek_cur, buffer_can_read,
}
use app_bitcoin_new.Buffer.Invariant.{
  IsValid, Kept, Op, seek_cur, read_u8, write_u32, alloc, run_ops, run_ops-Kept,
}
use app_bitcoin_new.Buffer.Stream.{
  view, remaining, take_byte, move_over_byte, take_bytes, take_number, buffer_read_u8-take_byte,
  buffer_read_bytes-take_bytes, buffer_read-take_number,
}
use app_bitcoin_new.Buffer.RoundTrip.{WritesThenReads, buffer_read-write}
use app_bitcoin_new.Buffer.PathRead.{buffer_read_bip32_path-short}
use mathlib.Core.Option

abbrev ten : Buffer
ten = record {
  address = 0x2001;
  ptr = 1 ∷ 2 ∷ 3 ∷ 4 ∷ 5 ∷ 6 ∷ 7 ∷ 8 ∷ 9 ∷ 10 ∷ [];
  size = 10;
  offset = 1;
}

ten-IsValid : IsValid ten
ten-IsValid = omega arith

read_two : (buffer_read_u16 ten be).1 ≡ 0x0203
unfolding buffer_read_u16 buffer_can_read read_u16_be
read_two = refl

alloc_aligned : buffer_alloc ten 4 true ≡ some (3, record ten { offset = 7 })
unfolding buffer_alloc alloc_padding buffer_can_read buffer_seek_cur
alloc_aligned = refl

abbrev calls : List Op
calls = read_u8 ∷ write_u32 7 le ∷ seek_cur 100 ∷ alloc 3 true ∷ []

run_ops-Kept_example : Kept ten (run_ops calls ten)
run_ops-Kept_example = run_ops-Kept calls ten ten-IsValid

buffer_read_u8-take_byte_example :
    (view (buffer_read_u8 ten) ≡ take_byte (remaining ten))
    × (buffer_read_u8 ten ≡ move_over_byte (remaining ten) ten)
buffer_read_u8-take_byte_example = buffer_read_u8-take_byte ten ten-IsValid

buffer_read_bytes-take_bytes_example :
    Option.map (λ (r : List ℕ × Buffer). (r.0, remaining r.1)) (buffer_read_bytes ten 3)
    ≡ take_bytes (remaining ten) 3
buffer_read_bytes-take_bytes_example = buffer_read_bytes-take_bytes ten 3 ten-IsValid

buffer_read-take_number_example :
    (view (buffer_read_u16 ten le) ≡ take_number (remaining ten) 2 le)
    × (view (buffer_read_u32 ten le) ≡ take_number (remaining ten) 4 le)
    × (view (buffer_read_u64 ten le) ≡ take_number (remaining ten) 8 le)
buffer_read-take_number_example = buffer_read-take_number ten le ten-IsValid (omega arith)

buffer_read-write_example :
    WritesThenReads ten 1 (buffer_write_u16 ten 1 be) (λ b'. buffer_read_u16 b' be)
    × WritesThenReads ten 2 (buffer_write_u32 ten 2 be) (λ b'. buffer_read_u32 b' be)
    × WritesThenReads ten 3 (buffer_write_u64 ten 3 be) (λ b'. buffer_read_u64 b' be)
buffer_read-write_example =
    buffer_read-write ten 1 2 3 be ten-IsValid (omega arith) (omega arith) (omega arith)
      (omega arith)

abbrev zeros : List ℕ
zeros = 0 ∷ 0 ∷ 0 ∷ []

-- nine bytes for three steps
buffer_read_bip32_path-short_example :
    let r = buffer_read_bip32_path ten zeros 3 in (r.0 ≡ true) × (r.2 ≡ ten)
buffer_read_bip32_path-short_example =
    buffer_read_bip32_path-short ten zeros 3 ten-IsValid (omega arith) (omega arith) (omega arith)
      (omega arith)
