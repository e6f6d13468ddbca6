-- ===== src/Buffer/Stream.antt =====
-- The readers of common/buffer.c against a plain stream of bytes: what is left to read is a list,
-- and each reader takes its bytes from the front of that list or leaves it alone.
use app_bitcoin_new.Prelude.{
  ℕ, zero, suc, ◌+◌, ◌-◌, ◌≤◌, ◌<◌, ◌≡◌, refl, sym, ap, ap₂, ◌∙◌, arith, List, [], ◌∷◌, ◌++◌, Bool,
  true, false, Option, none, some, take, drop, length, All, length-take, length-drop, take-take,
  drop-take, drop-drop, ltb, leb, if◌then◌else◌, Bool-cases, inl, inr, tests, leb→le,
}
use app_bitcoin_new.Bytes.{
  IsByte, at, read_u16_be, read_u32_be, read_u64_be, read_u16_le, read_u32_le, read_u64_le,
}
use app_bitcoin_new.Bytes.Value.{
  window, le_value, be_value, read_u16_be-value, read_u32_be-value, read_u64_be-value,
  read_u16_le-value, read_u32_le-value, read_u64_le-value,
}
use app_bitcoin_new.Varint.Bounds.{window-IsByte}
use app_bitcoin_new.Buffer.{
  Buffer, Endianness, be, le, sub_size, buffer_can_read, buffer_seek_cur, buffer_read_u8,
  buffer_peek, buffer_read_u16, buffer_read_u32, buffer_read_u64, buffer_read_bytes,
}
use app_bitcoin_new.Buffer.Invariant.{IsValid}
use mathlib.Core.Option

-- The bytes that are left to read.
abbrev pub remaining : Buffer → List ℕ
remaining b = take (b.size - b.offset) (drop b.offset b.ptr)

-- What remains in each of some buffers, together.
abbrev pub all_remaining : List Buffer → List ℕ
all_remaining [] = []
all_remaining (b ∷ bs) = remaining b ++ all_remaining bs

-- A reader's answer with the bytes that it leaves in place of the buffer.
abbrev pub view {ℓ} : {A : Type ℓ} → Bool × A × Buffer → Bool × A × List ℕ
view (ok, value, b) = (ok, value, remaining b)

-- The stream's side.
unfoldable pub take_byte : List ℕ → Bool × ℕ × List ℕ
take_byte [] = (false, 0, [])
take_byte (x ∷ s) = (true, x, s)

-- The same with all of the buffer: only the cursor moves, and only if a byte remains.
unfoldable pub move_over_byte : List ℕ → Buffer → Bool × ℕ × Buffer
move_over_byte [] b = (false, 0, b)
move_over_byte (x ∷ s) b = (true, x, record b { offset = b.offset + 1 })

unfoldable pub peek_byte : List ℕ → Option ℕ
peek_byte [] = none
peek_byte (x ∷ s) = some x

unfoldable pub take_bytes : List ℕ → ℕ → Option (List ℕ × List ℕ)
take_bytes s n = if ltb (length s) n then none else some (take n s, drop n s)

abbrev pub value_of : Endianness → List ℕ → ℕ
value_of be bs = be_value bs
value_of le bs = le_value bs

-- A number of `n` bytes.
unfoldable pub take_number : List ℕ → ℕ → Endianness → Bool × ℕ × List ℕ
take_number s n e =
    if ltb (length s) n then (false, 0, s) else (true, value_of e (take n s), drop n s)

pub length-remaining : (b : Buffer) → IsValid b → length (remaining b) ≡ b.size - b.offset
length-remaining b v =
    omega (arith, length-take (b.size - b.offset) (drop b.offset b.ptr), length-drop b.offset b.ptr)

pub seek_cur_fits :
    (b : Buffer) (n : ℕ)
    → IsValid b
    → n ≤ b.size - b.offset
    → buffer_seek_cur b n ≡ (true, record b { offset = b.offset + n })
unfolding buffer_seek_cur
seek_cur_fits b n v h = ground arith

-- Within the size, the cursor's move drops bytes from the front.
pub remaining-seek_cur :
    (b : Buffer) (n : ℕ)
    → IsValid b
    → n ≤ b.size - b.offset
    → remaining (buffer_seek_cur b n).1 ≡ drop n (remaining b)
remaining-seek_cur b n v h =
    let e : b.size - (b.offset + n) ≡ b.size - b.offset - n = omega arith in
    rw (seek_cur_fits b n v h)
      (rw (drop-take n (b.size - b.offset) (drop b.offset b.ptr) h, drop-drop n b.offset b.ptr, e))

drop-cons :
    (ptr : List ℕ) (offset : ℕ)
    → offset < length ptr
    → drop offset ptr ≡ at ptr offset ∷ drop (suc offset) ptr
drop-cons [] offset h = absurd (omega arith)
drop-cons (x ∷ xs) zero h = refl
drop-cons (x ∷ xs) (suc o) h = drop-cons xs o (omega arith)

window-drop :
    (ptr : List ℕ) (offset n : ℕ)
    → offset + n ≤ length ptr
    → window ptr offset n ≡ take n (drop offset ptr)
window-drop ptr offset zero h = refl
window-drop ptr offset (suc n) h =
    ap (◌∷◌ (at ptr offset)) (window-drop ptr (suc offset) n (omega arith))
    ∙ ap (take (suc n)) (sym (drop-cons ptr offset (omega arith)))

-- The bytes at the cursor are the first bytes that remain.
window-remaining :
    (b : Buffer) (n : ℕ)
    → IsValid b
    → n ≤ b.size - b.offset
    → window b.ptr b.offset n ≡ take n (remaining b)
window-remaining b n v h =
    window-drop b.ptr b.offset n (omega arith)
    ∙ sym (take-take n (b.size - b.offset) (drop b.offset b.ptr) h)

-- A byte stands at the cursor exactly if one remains, and it is the first.
pub remaining-cons :
    (b : Buffer)
    → IsValid b
    → b.offset < b.size
    → remaining b ≡ at b.ptr b.offset ∷ drop 1 (remaining b)
remaining-cons b v h =
    let k : b.size - b.offset ≡ suc (b.size - b.offset - 1) = omega arith in
    rw (drop-cons b.ptr b.offset (omega arith), k)

pub remaining-nil : (b : Buffer) → b.size ≤ b.offset → remaining b ≡ []
remaining-nil b h = let k : b.size - b.offset ≡ 0 = omega arith in rw k

pub can_read_fits :
    (b : Buffer) (n : ℕ) → IsValid b → buffer_can_read b n ≡ leb n (b.size - b.offset)
unfolding buffer_can_read
can_read_fits b n v = ground arith

read_u8-take_byte : (b : Buffer) → IsValid b → view (buffer_read_u8 b) ≡ take_byte (remaining b)
unfolding buffer_read_u8 take_byte
read_u8-take_byte b v = elim (Bool-cases (leb 1 (b.size - b.offset))) [
  | inl e ↦
      rw (can_read_fits b 1 v, e)
        (ap (λ (s : List ℕ). (true, at b.ptr b.offset, s)) (remaining-seek_cur b 1 v (omega tests))
          ∙ sym (ap take_byte (remaining-cons b v (omega tests))))
  | inr e ↦ rw (can_read_fits b 1 v, e) (rw (remaining-nil b (ground arith)))
]

read_u8-move_over_byte :
    (b : Buffer) → IsValid b → buffer_read_u8 b ≡ move_over_byte (remaining b) b
unfolding buffer_read_u8 move_over_byte
read_u8-move_over_byte b v = elim (Bool-cases (leb 1 (b.size - b.offset))) [
  | inl e ↦
      rw (can_read_fits b 1 v, e)
        (ap (λ (r : Bool × Buffer). (true, at b.ptr b.offset, r.1))
            (seek_cur_fits b 1 v (omega tests))
          ∙ sym (ap (λ (s : List ℕ). move_over_byte s b) (remaining-cons b v (omega tests))))
  | inr e ↦
      rw (can_read_fits b 1 v, e)
        (sym (ap (λ (s : List ℕ). move_over_byte s b) (remaining-nil b (ground arith))))
]

-- On a valid buffer, `buffer_read_u8` takes the first of the bytes that remain, and moves the cursor
-- over it and changes nothing else of the buffer; if none remains, it fails, gives 0 and leaves the
-- buffer as it was.
pub buffer_read_u8-take_byte :
    (b : Buffer)
    → IsValid b
    → (view (buffer_read_u8 b) ≡ take_byte (remaining b))
      × (buffer_read_u8 b ≡ move_over_byte (remaining b) b)
buffer_read_u8-take_byte b v = (read_u8-take_byte b v, read_u8-move_over_byte b v)

pub buffer_peek-peek_byte : (b : Buffer) → IsValid b → buffer_peek b ≡ peek_byte (remaining b)
unfolding buffer_peek peek_byte
buffer_peek-peek_byte b v = elim (Bool-cases (leb 1 (b.size - b.offset))) [
  | inl e ↦ rw (can_read_fits b 1 v, e) (rw (remaining-cons b v (omega tests)))
  | inr e ↦ rw (can_read_fits b 1 v, e) (rw (remaining-nil b (ground arith)))
]

-- On a valid buffer, `buffer_read_bytes` takes n of the bytes that remain, or fails if fewer remain.
pub buffer_read_bytes-take_bytes :
    (b : Buffer) (n : ℕ)
    → IsValid b
    → Option.map (λ (r : List ℕ × Buffer). (r.0, remaining r.1)) (buffer_read_bytes b n)
      ≡ take_bytes (remaining b) n
unfolding buffer_read_bytes take_bytes
buffer_read_bytes-take_bytes b n v = elim (Bool-cases (ltb (b.size - b.offset) n)) [
  | inl e ↦ rw (size, length-remaining b v, e)
  | inr e ↦
      rw (size, length-remaining b v, e)
        (ap₂ (λ (s t : List ℕ). some (s, t))
          (sym (take-take n (b.size - b.offset) (drop b.offset b.ptr) (ground arith)))
          (remaining-seek_cur b n v (ground arith)))
]
  where
    size : sub_size b.size b.offset ≡ b.size - b.offset
    size = omega arith

number_lem :
    (b : Buffer) (n x : ℕ) (e : Endianness)
    → IsValid b
    → (n ≤ b.size - b.offset → x ≡ value_of e (take n (remaining b)))
    → view (if buffer_can_read b n then (true, x, (buffer_seek_cur b n).1) else (false, 0, b))
      ≡ take_number (remaining b) n e
unfolding take_number
number_lem b n x e v value = elim (Bool-cases (leb n (b.size - b.offset))) [
  | inl h ↦
      rw (can_read_fits b n v, h, length-remaining b v, not_short (leb→le n (b.size - b.offset) h))
        (ap₂ (λ (y : ℕ) (s : List ℕ). (true, y, s)) (value (omega tests))
          (remaining-seek_cur b n v (omega tests)))
  | inr h ↦ rw (can_read_fits b n v, h, length-remaining b v, short h)
]
  where
    not_short : n ≤ b.size - b.offset → ltb (b.size - b.offset) n ≡ false
    not_short k = ground arith

    short : leb n (b.size - b.offset) ≡ false → ltb (b.size - b.offset) n ≡ true
    short k = ground arith

read_u16-take_number :
    (b : Buffer) (e : Endianness)
    → IsValid b
    → All IsByte b.ptr
    → view (buffer_read_u16 b e) ≡ take_number (remaining b) 2 e
unfolding buffer_read_u16
read_u16-take_number b be v bytes = number_lem b 2 (read_u16_be b.ptr b.offset) be v (λ h.
    read_u16_be-value b.ptr b.offset (window-IsByte b.ptr b.offset 2 bytes)
    ∙ ap be_value (window-remaining b 2 v h))
read_u16-take_number b le v bytes = number_lem b 2 (read_u16_le b.ptr b.offset) le v (λ h.
    read_u16_le-value b.ptr b.offset (window-IsByte b.ptr b.offset 2 bytes)
    ∙ ap le_value (window-remaining b 2 v h))

read_u32-take_number :
    (b : Buffer) (e : Endianness)
    → IsValid b
    → All IsByte b.ptr
    → view (buffer_read_u32 b e) ≡ take_number (remaining b) 4 e
unfolding buffer_read_u32
read_u32-take_number b be v bytes = number_lem b 4 (read_u32_be b.ptr b.offset) be v (λ h.
    read_u32_be-value b.ptr b.offset (window-IsByte b.ptr b.offset 4 bytes)
    ∙ ap be_value (window-remaining b 4 v h))
read_u32-take_number b le v bytes = number_lem b 4 (read_u32_le b.ptr b.offset) le v (λ h.
    read_u32_le-value b.ptr b.offset (window-IsByte b.ptr b.offset 4 bytes)
    ∙ ap le_value (window-remaining b 4 v h))

read_u64-take_number :
    (b : Buffer) (e : Endianness)
    → IsValid b
    → All IsByte b.ptr
    → view (buffer_read_u64 b e) ≡ take_number (remaining b) 8 e
unfolding buffer_read_u64
read_u64-take_number b be v bytes = number_lem b 8 (read_u64_be b.ptr b.offset) be v (λ h.
    read_u64_be-value b.ptr b.offset (window-IsByte b.ptr b.offset 8 bytes)
    ∙ ap be_value (window-remaining b 8 v h))
read_u64-take_number b le v bytes = number_lem b 8 (read_u64_le b.ptr b.offset) le v (λ h.
    read_u64_le-value b.ptr b.offset (window-IsByte b.ptr b.offset 8 bytes)
    ∙ ap le_value (window-remaining b 8 v h))

-- On a valid buffer of bytes, `buffer_read_u16`, `_u32` and `_u64` take a number of that many bytes
-- in the given order from the front of what remains; if too little remains, they fail, give 0 and
-- leave the bytes alone.
pub buffer_read-take_number :
    (b : Buffer) (e : Endianness)
    → IsValid b
    → All IsByte b.ptr
    → (view (buffer_read_u16 b e) ≡ take_number (remaining b) 2 e)
      × (view (buffer_read_u32 b e) ≡ take_number (remaining b) 4 e)
      × (view (buffer_read_u64 b e) ≡ take_number (remaining b) 8 e)
buffer_read-take_number b e v bytes = (
  read_u16-take_number b e v bytes,
  read_u32-take_number b e v bytes,
  read_u64-take_number b e v bytes,
)
