-- ===== src/Varint/Tests.antt =====
-- Runs of common/varint.c, and the theorems on it at concrete inputs.
use app_bitcoin_new.Prelude.{ℕ, ◌^◌, ◌≤◌, ◌<◌, ◌≡◌, refl, arith, List, [], ◌∷◌, some, replicate}
use app_bitcoin_new.Bytes.{read_u16_le, write_u16_le}
use app_bitcoin_new.Varint.{varint_size, varint_read, varint_write}
use app_bitcoin_new.Varint.RoundTrip.{Decodes, varint_read-write}
use app_bitcoin_new.Varint.Bounds.{varint_read_bounds}

write_300 : varint_write (replicate 4 0) 1 300 ≡ some (3, 0 ∷ 0xFD ∷ 0x2C ∷ 0x01 ∷ [])
unfolding varint_write varint_size write_u16_le
write_300 = refl

-- A number in more bytes than it needs is accepted.
read_padded : varint_read (0xFD ∷ 5 ∷ 0 ∷ []) 3 ≡ some (3, 5)
unfolding varint_read read_u16_le
read_padded = refl

varint_read-write_example :
    (out' : List ℕ) × Decodes (replicate 12 0) 1 11 (varint_size (2 ^ 40)) (2 ^ 40) out'
unfolding varint_size
varint_read-write_example =
    varint_read-write (replicate 12 0) 1 11 (2 ^ 40) (omega arith) (omega arith) (omega arith)

varint_read_bounds_example : (1 ≤ 3) × (3 ≤ 3) × (5 < 2 ^ 64) × (varint_size 5 ≤ 3)
varint_read_bounds_example = varint_read_bounds (0xFD ∷ 5 ∷ 0 ∷ []) 3 3 5 (omega arith) read_padded
