-- ===== src/Bytes/Value.antt =====
-- What a region of bytes stands for, in plain arithmetic, against common/read.c.
use app_bitcoin_new.Prelude.{
  ℕ, zero, suc, ◌+◌, ◌*◌, ◌^◌, ◌≡◌, ◌∙◌, arith, bit_or, List, [], ◌∷◌, All,
}
use app_bitcoin_new.Prelude.Bits.{bit_or_low, bit_or_high}
use app_bitcoin_new.Bytes.{
  IsByte, at, shl, read_u16_be, read_u32_be, read_u64_be, read_u16_le, read_u32_le, read_u64_le,
}
use native.Mathlib.Numerals.{towards_suc}

-- The `n` bytes from `offset` on.
abbrev pub window : List ℕ → ℕ → ℕ → List ℕ
window ptr offset zero = []
window ptr offset (suc n) = at ptr offset ∷ window ptr (suc offset) n

-- The number with the given digits to base 256, lowest first ...
abbrev pub le_value : List ℕ → ℕ
le_value [] = 0
le_value (b ∷ bs) = 256 * le_value bs + b

-- ... and highest first, behind the digits of `acc`.
abbrev pub be_value_from : ℕ → List ℕ → ℕ
be_value_from acc [] = acc
be_value_from acc (b ∷ bs) = be_value_from (256 * acc + b) bs

abbrev pub be_value : List ℕ → ℕ
be_value bs = be_value_from 0 bs

or2_le : (a b : ℕ) → IsByte a → IsByte b → bit_or (shl 16 a 0) (shl 16 b 8) ≡ le_value (a ∷ b ∷ [])
or2_le a b ha hb =
    (bit_or_low 8 (a) (b * 2 ^ 8) (omega arith) (omega arith) (omega arith) (omega arith))
    ∙ omega arith

or2_be : (a b : ℕ) → IsByte a → IsByte b → bit_or (shl 16 a 8) (shl 16 b 0) ≡ be_value (a ∷ b ∷ [])
or2_be a b ha hb =
    (bit_or_high 8 (a * 2 ^ 8) (b) (omega arith) (omega arith) (omega arith) (omega arith))
    ∙ omega arith

or4_le :
    (a b c d : ℕ)
    → IsByte a
    → IsByte b
    → IsByte c
    → IsByte d
    → bit_or (bit_or (bit_or (shl 32 a 0) (shl 32 b 8)) (shl 32 c 16)) (shl 32 d 24)
      ≡ le_value (a ∷ b ∷ c ∷ d ∷ [])
or4_le a b c d ha hb hc hd =
    (bit_or_low 24 (a + b * 2 ^ 8 + c * 2 ^ 16) (d * 2 ^ 24)
      (bit_or_low 16 (a + b * 2 ^ 8) (c * 2 ^ 16)
        (bit_or_low 8 (a) (b * 2 ^ 8) (omega arith) (omega arith) (omega arith) (omega arith))
        (omega arith) (omega arith) (omega arith))
      (omega arith) (omega arith) (omega arith))
    ∙ omega arith

or4_be :
    (a b c d : ℕ)
    → IsByte a
    → IsByte b
    → IsByte c
    → IsByte d
    → bit_or (bit_or (bit_or (shl 32 a 24) (shl 32 b 16)) (shl 32 c 8)) (shl 32 d 0)
      ≡ be_value (a ∷ b ∷ c ∷ d ∷ [])
or4_be a b c d ha hb hc hd =
    (bit_or_high 8 (a * 2 ^ 24 + b * 2 ^ 16 + c * 2 ^ 8) (d)
      (bit_or_high 16 (a * 2 ^ 24 + b * 2 ^ 16) (c * 2 ^ 8)
        (bit_or_high 24 (a * 2 ^ 24) (b * 2 ^ 16) (omega arith) (omega arith) (omega arith)
          (omega arith))
        (omega arith) (omega arith) (omega arith))
      (omega arith) (omega arith) (omega arith))
    ∙ omega arith

or8_le :
    (a b c d e f g h : ℕ)
    → IsByte a
    → IsByte b
    → IsByte c
    → IsByte d
    → IsByte e
    → IsByte f
    → IsByte g
    → IsByte h
    → bit_or
        (bit_or
          (bit_or
            (bit_or
              (bit_or (bit_or (bit_or (shl 64 a 0) (shl 64 b 8)) (shl 64 c 16)) (shl 64 d 24))
              (shl 64 e 32))
            (shl 64 f 40))
          (shl 64 g 48))
        (shl 64 h 56)
      ≡ le_value (a ∷ b ∷ c ∷ d ∷ e ∷ f ∷ g ∷ h ∷ [])
or8_le a b c d e f g h ha hb hc hd he hf hg hh =
    (bit_or_low 56 (a + b * 2 ^ 8 + c * 2 ^ 16 + d * 2 ^ 24 + e * 2 ^ 32 + f * 2 ^ 40 + g * 2 ^ 48)
      (h * 2 ^ 56)
      (bit_or_low 48 (a + b * 2 ^ 8 + c * 2 ^ 16 + d * 2 ^ 24 + e * 2 ^ 32 + f * 2 ^ 40)
        (g * 2 ^ 48)
        (bit_or_low 40 (a + b * 2 ^ 8 + c * 2 ^ 16 + d * 2 ^ 24 + e * 2 ^ 32) (f * 2 ^ 40)
          (bit_or_low 32 (a + b * 2 ^ 8 + c * 2 ^ 16 + d * 2 ^ 24) (e * 2 ^ 32)
            (bit_or_low 24 (a + b * 2 ^ 8 + c * 2 ^ 16) (d * 2 ^ 24)
              (bit_or_low 16 (a + b * 2 ^ 8) (c * 2 ^ 16)
                (bit_or_low 8 (a) (b * 2 ^ 8) (omega arith) (omega arith) (omega arith)
                  (omega arith))
                (omega arith) (omega arith) (omega arith))
              (omega arith) (omega arith) (omega arith))
            (omega arith) (omega arith) (omega arith))
          (omega arith) (omega arith) (omega arith))
        (omega arith) (omega arith) (omega arith))
      (omega arith) (omega arith) (omega arith))
    ∙ omega arith

or8_be :
    (a b c d e f g h : ℕ)
    → IsByte a
    → IsByte b
    → IsByte c
    → IsByte d
    → IsByte e
    → IsByte f
    → IsByte g
    → IsByte h
    → bit_or
        (bit_or
          (bit_or
            (bit_or
              (bit_or (bit_or (bit_or (shl 64 a 56) (shl 64 b 48)) (shl 64 c 40)) (shl 64 d 32))
              (shl 64 e 24))
            (shl 64 f 16))
          (shl 64 g 8))
        (shl 64 h 0)
      ≡ be_value (a ∷ b ∷ c ∷ d ∷ e ∷ f ∷ g ∷ h ∷ [])
or8_be a b c d e f g h ha hb hc hd he hf hg hh =
    (bit_or_high 8
      (a * 2 ^ 56 + b * 2 ^ 48 + c * 2 ^ 40 + d * 2 ^ 32 + e * 2 ^ 24 + f * 2 ^ 16 + g * 2 ^ 8) (h)
      (bit_or_high 16 (a * 2 ^ 56 + b * 2 ^ 48 + c * 2 ^ 40 + d * 2 ^ 32 + e * 2 ^ 24 + f * 2 ^ 16)
        (g * 2 ^ 8)
        (bit_or_high 24 (a * 2 ^ 56 + b * 2 ^ 48 + c * 2 ^ 40 + d * 2 ^ 32 + e * 2 ^ 24)
          (f * 2 ^ 16)
          (bit_or_high 32 (a * 2 ^ 56 + b * 2 ^ 48 + c * 2 ^ 40 + d * 2 ^ 32) (e * 2 ^ 24)
            (bit_or_high 40 (a * 2 ^ 56 + b * 2 ^ 48 + c * 2 ^ 40) (d * 2 ^ 32)
              (bit_or_high 48 (a * 2 ^ 56 + b * 2 ^ 48) (c * 2 ^ 40)
                (bit_or_high 56 (a * 2 ^ 56) (b * 2 ^ 48) (omega arith) (omega arith) (omega arith)
                  (omega arith))
                (omega arith) (omega arith) (omega arith))
              (omega arith) (omega arith) (omega arith))
            (omega arith) (omega arith) (omega arith))
          (omega arith) (omega arith) (omega arith))
        (omega arith) (omega arith) (omega arith))
      (omega arith) (omega arith) (omega arith))
    ∙ omega arith

pub read_u16_le-value :
    (ptr : List ℕ) (offset : ℕ)
    → All IsByte (window ptr offset 2)
    → read_u16_le ptr offset ≡ le_value (window ptr offset 2)
unfolding read_u16_le
read_u16_le-value ptr offset (h0, (h1, _)) = simp towards_suc (or2_le _ _ h0 h1)

pub read_u16_be-value :
    (ptr : List ℕ) (offset : ℕ)
    → All IsByte (window ptr offset 2)
    → read_u16_be ptr offset ≡ be_value (window ptr offset 2)
unfolding read_u16_be
read_u16_be-value ptr offset (h0, (h1, _)) = simp towards_suc (or2_be _ _ h0 h1)

pub read_u32_le-value :
    (ptr : List ℕ) (offset : ℕ)
    → All IsByte (window ptr offset 4)
    → read_u32_le ptr offset ≡ le_value (window ptr offset 4)
unfolding read_u32_le
read_u32_le-value ptr offset (h0, (h1, (h2, (h3, _)))) =
    simp towards_suc (or4_le _ _ _ _ h0 h1 h2 h3)

pub read_u32_be-value :
    (ptr : List ℕ) (offset : ℕ)
    → All IsByte (window ptr offset 4)
    → read_u32_be ptr offset ≡ be_value (window ptr offset 4)
unfolding read_u32_be
read_u32_be-value ptr offset (h0, (h1, (h2, (h3, _)))) =
    simp towards_suc (or4_be _ _ _ _ h0 h1 h2 h3)

pub read_u64_le-value :
    (ptr : List ℕ) (offset : ℕ)
    → All IsByte (window ptr offset 8)
    → read_u64_le ptr offset ≡ le_value (window ptr offset 8)
unfolding read_u64_le
read_u64_le-value ptr offset (h0, (h1, (h2, (h3, (h4, (h5, (h6, (h7, _)))))))) =
    simp towards_suc (or8_le _ _ _ _ _ _ _ _ h0 h1 h2 h3 h4 h5 h6 h7)

pub read_u64_be-value :
    (ptr : List ℕ) (offset : ℕ)
    → All IsByte (window ptr offset 8)
    → read_u64_be ptr offset ≡ be_value (window ptr offset 8)
unfolding read_u64_be
read_u64_be-value ptr offset (h0, (h1, (h2, (h3, (h4, (h5, (h6, (h7, _)))))))) =
    simp towards_suc (or8_be _ _ _ _ _ _ _ _ h0 h1 h2 h3 h4 h5 h6 h7)

-- Where eight bytes stand from `offset` on, the readers of common/read.c give the numbers that the
-- first two, four and eight of them stand for, in the byte order that their names tell.
pub read-value :
    (ptr : List ℕ) (offset : ℕ)
    → All IsByte (window ptr offset 8)
    → (read_u16_le ptr offset ≡ le_value (window ptr offset 2))
      × (read_u32_le ptr offset ≡ le_value (window ptr offset 4))
      × (read_u64_le ptr offset ≡ le_value (window ptr offset 8))
      × (read_u16_be ptr offset ≡ be_value (window ptr offset 2))
      × (read_u32_be ptr offset ≡ be_value (window ptr offset 4))
      × (read_u64_be ptr offset ≡ be_value (window ptr offset 8))
read-value ptr offset (a, (b, (c, (d, rest)))) = (
  read_u16_le-value ptr offset (a, (b, tt)),
  read_u32_le-value ptr offset (a, (b, (c, (d, tt)))),
  read_u64_le-value ptr offset (a, (b, (c, (d, rest)))),
  read_u16_be-value ptr offset (a, (b, tt)),
  read_u32_be-value ptr offset (a, (b, (c, (d, tt)))),
  read_u64_be-value ptr offset (a, (b, (c, (d, rest)))),
)
