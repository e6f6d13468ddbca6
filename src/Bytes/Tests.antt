-- ===== src/Bytes/Tests.antt =====
-- The theorems on common/read.c and common/write.c at a concrete region.
use app_bitcoin_new.Prelude.{ℕ, ◌≡◌, refl, arith, List, [], ◌∷◌}
use app_bitcoin_new.Bytes.{
  read_u16_be, read_u32_be, read_u64_be, read_u16_le, read_u32_le, read_u64_le, write_u16_be,
  write_u32_be, write_u64_be, write_u16_le, write_u32_le, write_u64_le,
}
use app_bitcoin_new.Bytes.Value.{window, le_value, be_value, read-value}
use app_bitcoin_new.Bytes.RoundTrip.{read-write}

abbrev region : List ℕ
region = 0xff ∷ 1 ∷ 2 ∷ 3 ∷ 4 ∷ 5 ∷ 6 ∷ 7 ∷ 8 ∷ []

be_run : read_u32_be region 1 ≡ 0x0102_0304
unfolding read_u32_be
be_run = refl

read-value_example :
    (read_u16_le region 1 ≡ le_value (window region 1 2))
    × (read_u32_le region 1 ≡ le_value (window region 1 4))
    × (read_u64_le region 1 ≡ le_value (window region 1 8))
    × (read_u16_be region 1 ≡ be_value (window region 1 2))
    × (read_u32_be region 1 ≡ be_value (window region 1 4))
    × (read_u64_be region 1 ≡ be_value (window region 1 8))
read-value_example = read-value region 1 (omega arith)

read-write_example :
    (read_u16_le (write_u16_le region 1 300) 1 ≡ 300)
    × (read_u32_le (write_u32_le region 1 70000) 1 ≡ 70000)
    × (read_u64_le (write_u64_le region 1 5) 1 ≡ 5)
    × (read_u16_be (write_u16_be region 1 300) 1 ≡ 300)
    × (read_u32_be (write_u32_be region 1 70000) 1 ≡ 70000)
    × (read_u64_be (write_u64_be region 1 5) 1 ≡ 5)
read-write_example =
    read-write region 1 300 70000 5 (omega arith) (omega arith) (omega arith) (omega arith)
