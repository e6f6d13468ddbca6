-- ===== src/Varint/Bounds.antt =====
-- What `varint_read` returns on any bytes, well formed or not.
use app_bitcoin_new.Prelude.{ℕ, zero, suc, ◌^◌, ◌≤◌, ◌<◌, ◌≡◌, arith, List, some, All, All-get_or}
use app_bitcoin_new.Bytes.{IsByte, read_u16_le, read_u32_le, read_u64_le}
use app_bitcoin_new.Bytes.Value.{window, read_u16_le-value, read_u32_le-value, read_u64_le-value}
use app_bitcoin_new.Varint.{varint_size, varint_read}

pub window-IsByte :
    (ptr : List ℕ) (offset n : ℕ) → All IsByte ptr → All IsByte (window ptr offset n)
window-IsByte ptr offset zero h = tt
window-IsByte ptr offset (suc n) h =
    (All-get_or IsByte ptr offset 0 (omega arith) h, window-IsByte ptr (suc offset) n h)

pub read_u16_le-lt : (ptr : List ℕ) (o : ℕ) → All IsByte ptr → read_u16_le ptr o < 2 ^ 16
read_u16_le-lt ptr o h =
    let w = window-IsByte ptr o 2 h in omega (arith, read_u16_le-value ptr o w, w.0, w.1)

pub read_u32_le-lt : (ptr : List ℕ) (o : ℕ) → All IsByte ptr → read_u32_le ptr o < 2 ^ 32
read_u32_le-lt ptr o h = let w = window-IsByte ptr o 4 h in omega (arith, read_u32_le-value ptr o w)

pub read_u64_le-lt : (ptr : List ℕ) (o : ℕ) → All IsByte ptr → read_u64_le ptr o < 2 ^ 64
read_u64_le-lt ptr o h = let w = window-IsByte ptr o 8 h in omega (arith, read_u64_le-value ptr o w)

-- What `varint_read` accepts: it takes at least one byte and no more than it may, the value fits 64
-- bits, and `varint_size` of the value is no more than the bytes taken.
pub varint_read_bounds :
    (src : List ℕ) (in_len n v : ℕ)
    → All IsByte src
    → varint_read src in_len ≡ some (n, v)
    → (1 ≤ n) × (n ≤ in_len) × (v < 2 ^ 64) × (varint_size v ≤ n)
unfolding varint_read varint_size
varint_read_bounds src in_len n v h e = ground (
  arith,
  read_u16_le-lt src 1 h,
  read_u32_le-lt src 1 h,
  read_u64_le-lt src 1 h,
  All-get_or IsByte src 0 0 (omega arith) h,
)
