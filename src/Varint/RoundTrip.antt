-- ===== src/Varint/RoundTrip.antt =====
-- Encoding and decoding of variable-length integers.
use app_bitcoin_new.Prelude.{
  ℕ, ◌+◌, ◌%◌, ◌^◌, ◌≤◌, ◌<◌, ◌≡◌, sym, ap, ◌∙◌, arith, List, some, length, drop, set, put_at, ◌⊎◌,
  inl, inr, length-set, length-put_at, get_or-drop, get_or-set_self,
}
use app_bitcoin_new.Bytes.{
  at, read_u16_le, read_u32_le, read_u64_le, write_u16_le, write_u32_le, write_u64_le,
}
use app_bitcoin_new.Bytes.RoundTrip.{
  le_bytes, get_or-put_at_outside, write_u16_le-put, write_u32_le-put, write_u64_le-put,
  read_u16-write_u16_le, read_u32-write_u32_le, read_u64-write_u64_le,
}
use app_bitcoin_new.Varint.{varint_size, varint_read, varint_write}
use mathlib.Core.Path.{subst}
use native.Mathlib.Nat.{add_assoc, add-zero}

-- A pointer into the region and an index count from the start of the region.
pub at-drop : (n i : ℕ) (ptr : List ℕ) → at (drop n ptr) i ≡ at ptr (n + i)
at-drop n i ptr = get_or-drop n i ptr 0

pub read_u16_le-drop :
    (n offset : ℕ) (ptr : List ℕ) → read_u16_le (drop n ptr) offset ≡ read_u16_le ptr (n + offset)
unfolding read_u16_le
read_u16_le-drop n offset ptr = simp (get_or-drop, add_assoc)

pub read_u32_le-drop :
    (n offset : ℕ) (ptr : List ℕ) → read_u32_le (drop n ptr) offset ≡ read_u32_le ptr (n + offset)
unfolding read_u32_le
read_u32_le-drop n offset ptr = simp (get_or-drop, add_assoc)

pub read_u64_le-drop :
    (n offset : ℕ) (ptr : List ℕ) → read_u64_le (drop n ptr) offset ≡ read_u64_le ptr (n + offset)
unfolding read_u64_le
read_u64_le-drop n offset ptr = simp (get_or-drop, add_assoc)

-- `varint_size` is 1, 3, 5 or 9.
pub varint_size_cases :
    (v : ℕ)
    → ((varint_size v ≡ 1) × (v ≤ 0xFC))
      ⊎ (((varint_size v ≡ 3) × (v < 2 ^ 16) × (0xFC < v))
          ⊎ (((varint_size v ≡ 5) × (v < 2 ^ 32) × (0xFFFF < v))
              ⊎ ((varint_size v ≡ 9) × (0xFFFF_FFFF < v))))
unfolding varint_size
varint_size_cases v = ground arith

-- What one write leaves for one read, at each of the four lengths.
abbrev pub Decodes : List ℕ → ℕ → ℕ → ℕ → ℕ → List ℕ → Type 0
Decodes out offset in_len n v out' =
    (varint_write out offset v ≡ some (n, out'))
    × (varint_read (drop offset out') in_len ≡ some (n, v))
    × (length out' ≡ length out)

module _ (out : List ℕ) (offset in_len v : ℕ) where
  head : (b : ℕ) → offset < length out → at (drop offset (set out offset b)) 0 ≡ b
  head b fits =
      at-drop offset 0 (set out offset b)
      ∙ (ap (λ (k : ℕ). at (set out offset b) k) (add-zero offset)
          ∙ get_or-set_self out offset b 0 fits)

  head_before :
      (b : ℕ) (bs : List ℕ)
      → offset < length out
      → at (drop offset (put_at (set out offset b) (offset + 1) bs)) 0 ≡ b
  head_before b bs fits =
      at-drop offset 0 (put_at (set out offset b) (offset + 1) bs)
      ∙ (ap (λ (k : ℕ). at (put_at (set out offset b) (offset + 1) bs) k) (add-zero offset)
          ∙ (get_or-put_at_outside (set out offset b) (offset + 1) bs offset 0 (inl (omega arith))
              ∙ get_or-set_self out offset b 0 fits))

  short :
      varint_size v ≡ 1
      → v ≤ 0xFC
      → offset + 1 ≤ length out
      → 1 ≤ in_len
      → Decodes out offset in_len 1 v (set out offset (v % 256))
  unfolding varint_write varint_read
  short e small fits long = ground (arith, head (v % 256), length-set out offset (v % 256))

  two_bytes :
      varint_size v ≡ 3
      → v < 2 ^ 16
      → offset + 3 ≤ length out
      → 3 ≤ in_len
      → Decodes out offset in_len 3 v (write_u16_le (set out offset 0xFD) (offset + 1) (v % 2 ^ 16))
  unfolding varint_write varint_read
  two_bytes e small fits long = ground (
    arith,
    write_u16_le-put (set out offset 0xFD) (offset + 1) (v % 2 ^ 16),
    head_before 0xFD (le_bytes 2 0 (v % 2 ^ 16)),
    length-set out offset 0xFD,
    length-put_at (set out offset 0xFD) (offset + 1) (le_bytes 2 0 (v % 2 ^ 16)),
    read_u16_le-drop offset 1 (write_u16_le (set out offset 0xFD) (offset + 1) (v % 2 ^ 16)),
    read_u16-write_u16_le (set out offset 0xFD) (offset + 1) (v % 2 ^ 16),
  )

  four_bytes :
      varint_size v ≡ 5
      → v < 2 ^ 32
      → offset + 5 ≤ length out
      → 5 ≤ in_len
      → Decodes out offset in_len 5 v (write_u32_le (set out offset 0xFE) (offset + 1) (v % 2 ^ 32))
  unfolding varint_write varint_read
  four_bytes e small fits long = ground (
    arith,
    write_u32_le-put (set out offset 0xFE) (offset + 1) (v % 2 ^ 32),
    head_before 0xFE (le_bytes 4 0 (v % 2 ^ 32)),
    length-set out offset 0xFE,
    length-put_at (set out offset 0xFE) (offset + 1) (le_bytes 4 0 (v % 2 ^ 32)),
    read_u32_le-drop offset 1 (write_u32_le (set out offset 0xFE) (offset + 1) (v % 2 ^ 32)),
    read_u32-write_u32_le (set out offset 0xFE) (offset + 1) (v % 2 ^ 32),
  )

  eight_bytes :
      varint_size v ≡ 9
      → v < 2 ^ 64
      → offset + 9 ≤ length out
      → 9 ≤ in_len
      → Decodes out offset in_len 9 v (write_u64_le (set out offset 0xFF) (offset + 1) v)
  unfolding varint_write varint_read
  eight_bytes e small fits long = ground (
    arith,
    write_u64_le-put (set out offset 0xFF) (offset + 1) v,
    head_before 0xFF (le_bytes 8 0 v),
    length-set out offset 0xFF,
    length-put_at (set out offset 0xFF) (offset + 1) (le_bytes 8 0 v),
    read_u64_le-drop offset 1 (write_u64_le (set out offset 0xFF) (offset + 1) v),
    read_u64-write_u64_le (set out offset 0xFF) (offset + 1) v,
  )

-- Where the region has room for the encoding of a 64-bit value, `varint_write` succeeds with the
-- length that `varint_size` announces and keeps the region's length, and `varint_read` at that place
-- returns that length and that value, however many more bytes it is allowed to read.
pub varint_read-write :
    (out : List ℕ) (offset in_len v : ℕ)
    → v < 2 ^ 64
    → offset + varint_size v ≤ length out
    → varint_size v ≤ in_len
    → (out' : List ℕ) × Decodes out offset in_len (varint_size v) v out'
varint_read-write out offset in_len v small fits long = elim (varint_size_cases v) [
  | inl (e, le) ↦ back e (_, short out offset in_len v e le (omega arith) (omega arith))
  | inr (inl (e, lt, _)) ↦
      back e (_, two_bytes out offset in_len v e lt (omega arith) (omega arith))
  | inr (inr (inl (e, lt, _))) ↦
      back e (_, four_bytes out offset in_len v e lt (omega arith) (omega arith))
  | inr (inr (inr (e, _))) ↦
      back e (_, eight_bytes out offset in_len v e small (omega arith) (omega arith))
]
  where
    back :
        {n : ℕ}
        → varint_size v ≡ n
        → (out' : List ℕ) × Decodes out offset in_len n v out'
        → (out' : List ℕ) × Decodes out offset in_len (varint_size v) v out'
    back e = subst (λ (k : ℕ). (out' : List ℕ) × Decodes out offset in_len k v out') (sym e)
