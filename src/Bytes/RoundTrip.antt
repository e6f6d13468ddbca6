-- ===== src/Bytes/RoundTrip.antt =====
-- What common/write.c leaves in the region, and reading it back by common/read.c.
use app_bitcoin_new.Prelude.{
  ℕ, zero, suc, ◌+◌, ◌*◌, ◌^◌, ◌≤◌, ◌<◌, ◌≡◌, refl, sym, ap, ap₂, ◌∙◌, arith, List, [], ◌∷◌, All,
  length, get_or, set, put_at, length-set, get_or-set_self, get_or-set_ne, ◌⊎◌, inl, inr,
}
use app_bitcoin_new.Bytes.{
  IsByte, byte, read_u16_be, read_u32_be, read_u64_be, read_u16_le, read_u32_le, read_u64_le,
  write_u16_be, write_u32_be, write_u64_be, write_u16_le, write_u32_le, write_u64_le,
}
use app_bitcoin_new.Bytes.Value.{
  window, le_value, be_value, read_u16_be-value, read_u32_be-value, read_u64_be-value,
  read_u16_le-value, read_u32_le-value, read_u64_le-value,
}
use mathlib.Core.Path.{subst}
use native.Mathlib.Numerals.{towards_suc}

-- The lowest `n` bytes of a value from byte `i` on, lowest first, and the lowest `n`, highest first.
abbrev pub le_bytes : ℕ → ℕ → ℕ → List ℕ
le_bytes zero i v = []
le_bytes (suc n) i v = byte v (8 * i) ∷ le_bytes n (suc i) v

abbrev pub be_bytes : ℕ → ℕ → List ℕ
be_bytes zero v = []
be_bytes (suc n) v = byte v (8 * n) ∷ be_bytes n v

-- Bytes that are put behind `j`, or end before it, leave `j` alone.
pub get_or-put_at_outside :
    (ptr : List ℕ) (i : ℕ) (bs : List ℕ) (j d : ℕ)
    → (j < i) ⊎ (i + length bs ≤ j)
    → get_or (put_at ptr i bs) j d ≡ get_or ptr j d
get_or-put_at_outside ptr i [] j d h = refl
get_or-put_at_outside ptr i (b ∷ bs) j d h =
    get_or-put_at_outside (set ptr i b) (suc i) bs j d (beyond h)
    ∙ get_or-set_ne ptr i j b d (λ e. absurd (omega arith))
  where
    beyond : (j < i) ⊎ (i + length (b ∷ bs) ≤ j) → (j < suc i) ⊎ (suc i + length bs ≤ j)
    beyond (inl p) = inl (omega arith)
    beyond (inr p) = inr (omega arith)

-- What is put within the region can be read there.
pub window-put_at :
    (ptr : List ℕ) (i : ℕ) (bs : List ℕ)
    → i + length bs ≤ length ptr
    → window (put_at ptr i bs) i (length bs) ≡ bs
window-put_at ptr i [] h = refl
window-put_at ptr i (b ∷ bs) h =
    ap₂ ◌∷◌
      (get_or-put_at_outside (set ptr i b) (suc i) bs i 0 (inl (omega arith))
        ∙ get_or-set_self ptr i b 0 (omega arith))
      (window-put_at (set ptr i b) (suc i) bs (omega (arith, length-set ptr i b)))

-- Each writer puts the bytes of the value, lowest or highest first.
pub write_u16_le-put :
    (ptr : List ℕ) (offset value : ℕ)
    → write_u16_le ptr offset value ≡ put_at ptr offset (le_bytes 2 0 value)
unfolding write_u16_le
write_u16_le-put ptr offset value = simp towards_suc

pub write_u16_be-put :
    (ptr : List ℕ) (offset value : ℕ)
    → write_u16_be ptr offset value ≡ put_at ptr offset (be_bytes 2 value)
unfolding write_u16_be
write_u16_be-put ptr offset value = simp towards_suc

pub write_u32_le-put :
    (ptr : List ℕ) (offset value : ℕ)
    → write_u32_le ptr offset value ≡ put_at ptr offset (le_bytes 4 0 value)
unfolding write_u32_le
write_u32_le-put ptr offset value = simp towards_suc

pub write_u32_be-put :
    (ptr : List ℕ) (offset value : ℕ)
    → write_u32_be ptr offset value ≡ put_at ptr offset (be_bytes 4 value)
unfolding write_u32_be
write_u32_be-put ptr offset value = simp towards_suc

pub write_u64_le-put :
    (ptr : List ℕ) (offset value : ℕ)
    → write_u64_le ptr offset value ≡ put_at ptr offset (le_bytes 8 0 value)
unfolding write_u64_le
write_u64_le-put ptr offset value = simp towards_suc

pub write_u64_be-put :
    (ptr : List ℕ) (offset value : ℕ)
    → write_u64_be ptr offset value ≡ put_at ptr offset (be_bytes 8 value)
unfolding write_u64_be
write_u64_be-put ptr offset value = simp towards_suc

-- A value of 16 bits that was written within the region is read back.
pub read_u16-write_u16_le :
    (ptr : List ℕ) (offset value : ℕ)
    → offset + 2 ≤ length ptr
    → value < 2 ^ 16
    → read_u16_le (write_u16_le ptr offset value) offset ≡ value
read_u16-write_u16_le ptr offset value fits small =
    let there = window-put_at ptr offset (le_bytes 2 0 value) fits in
    rw (write_u16_le-put ptr offset value) (
      read_u16_le-value _ offset (subst (All IsByte) (sym there) (omega arith))
      ∙ (ap le_value there ∙ omega arith))

-- A value of 16 bits that was written within the region is read back.
pub read_u16-write_u16_be :
    (ptr : List ℕ) (offset value : ℕ)
    → offset + 2 ≤ length ptr
    → value < 2 ^ 16
    → read_u16_be (write_u16_be ptr offset value) offset ≡ value
read_u16-write_u16_be ptr offset value fits small =
    let there = window-put_at ptr offset (be_bytes 2 value) fits in
    rw (write_u16_be-put ptr offset value) (
      read_u16_be-value _ offset (subst (All IsByte) (sym there) (omega arith))
      ∙ (ap be_value there ∙ omega arith))

-- A value of 32 bits that was written within the region is read back.
pub read_u32-write_u32_le :
    (ptr : List ℕ) (offset value : ℕ)
    → offset + 4 ≤ length ptr
    → value < 2 ^ 32
    → read_u32_le (write_u32_le ptr offset value) offset ≡ value
read_u32-write_u32_le ptr offset value fits small =
    let there = window-put_at ptr offset (le_bytes 4 0 value) fits in
    rw (write_u32_le-put ptr offset value) (
      read_u32_le-value _ offset (subst (All IsByte) (sym there) (omega arith))
      ∙ (ap le_value there ∙ omega arith))

-- A value of 32 bits that was written within the region is read back.
pub read_u32-write_u32_be :
    (ptr : List ℕ) (offset value : ℕ)
    → offset + 4 ≤ length ptr
    → value < 2 ^ 32
    → read_u32_be (write_u32_be ptr offset value) offset ≡ value
read_u32-write_u32_be ptr offset value fits small =
    let there = window-put_at ptr offset (be_bytes 4 value) fits in
    rw (write_u32_be-put ptr offset value) (
      read_u32_be-value _ offset (subst (All IsByte) (sym there) (omega arith))
      ∙ (ap be_value there ∙ omega arith))

-- A value of 64 bits that was written within the region is read back.
pub read_u64-write_u64_le :
    (ptr : List ℕ) (offset value : ℕ)
    → offset + 8 ≤ length ptr
    → value < 2 ^ 64
    → read_u64_le (write_u64_le ptr offset value) offset ≡ value
read_u64-write_u64_le ptr offset value fits small =
    let there = window-put_at ptr offset (le_bytes 8 0 value) fits in
    rw (write_u64_le-put ptr offset value) (
      read_u64_le-value _ offset (subst (All IsByte) (sym there) (omega arith))
      ∙ (ap le_value there ∙ omega arith))

-- A value of 64 bits that was written within the region is read back.
pub read_u64-write_u64_be :
    (ptr : List ℕ) (offset value : ℕ)
    → offset + 8 ≤ length ptr
    → value < 2 ^ 64
    → read_u64_be (write_u64_be ptr offset value) offset ≡ value
read_u64-write_u64_be ptr offset value fits small =
    let there = window-put_at ptr offset (be_bytes 8 value) fits in
    rw (write_u64_be-put ptr offset value) (
      read_u64_be-value _ offset (subst (All IsByte) (sym there) (omega arith))
      ∙ (ap be_value there ∙ omega arith))

-- Where the region holds eight bytes from `offset` on, a 16-, 32- or 64-bit value that a writer of
-- common/write.c put there is what the reader of the same width and byte order gives.
pub read-write :
    (ptr : List ℕ) (offset x y z : ℕ)
    → offset + 8 ≤ length ptr
    → x < 2 ^ 16
    → y < 2 ^ 32
    → z < 2 ^ 64
    → (read_u16_le (write_u16_le ptr offset x) offset ≡ x)
      × (read_u32_le (write_u32_le ptr offset y) offset ≡ y)
      × (read_u64_le (write_u64_le ptr offset z) offset ≡ z)
      × (read_u16_be (write_u16_be ptr offset x) offset ≡ x)
      × (read_u32_be (write_u32_be ptr offset y) offset ≡ y)
      × (read_u64_be (write_u64_be ptr offset z) offset ≡ z)
read-write ptr offset x y z room hx hy hz = (
  read_u16-write_u16_le ptr offset x (omega arith) hx,
  read_u32-write_u32_le ptr offset y (omega arith) hy,
  read_u64-write_u64_le ptr offset z room hz,
  read_u16-write_u16_be ptr offset x (omega arith) hx,
  read_u32-write_u32_be ptr offset y (omega arith) hy,
  read_u64-write_u64_be ptr offset z room hz,
)
