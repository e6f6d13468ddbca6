-- ===== src/Buffer/RoundTrip.antt =====
-- Writing a number to a buffer and reading it back.
use app_bitcoin_new.Prelude.{
  ℕ, ◌-◌, ◌^◌, ◌≤◌, ◌<◌, ◌≡◌, refl, arith, List, Bool, true, length, le→leb,
}
use app_bitcoin_new.Bytes.{
  write_u16_be, write_u32_be, write_u64_be, write_u16_le, write_u32_le, write_u64_le,
}
use app_bitcoin_new.Bytes.RoundTrip.{
  read_u16-write_u16_be, read_u32-write_u32_be, read_u64-write_u64_be, read_u16-write_u16_le,
  read_u32-write_u32_le, read_u64-write_u64_le,
}
use app_bitcoin_new.Buffer.{
  Buffer, Endianness, be, le, buffer_snapshot, buffer_restore, buffer_read_u16, buffer_read_u32,
  buffer_read_u64, buffer_write_u16, buffer_write_u32, buffer_write_u64,
}
use app_bitcoin_new.Buffer.Invariant.{
  IsValid, length-write_u16_be, length-write_u32_be, length-write_u64_be, length-write_u16_le,
  length-write_u32_le, length-write_u64_le,
}
use app_bitcoin_new.Buffer.Stream.{seek_cur_fits, can_read_fits}

-- The buffer with other bytes in its region.
abbrev with_ptr : Buffer → List ℕ → Buffer
with_ptr b ptr' = record b { ptr = ptr' }

with_ptr-IsValid :
    (b : Buffer) (ptr' : List ℕ)
    → IsValid b
    → length ptr' ≡ length b.ptr
    → IsValid (with_ptr b ptr')
with_ptr-IsValid b ptr' v e = ground arith

-- A writer's answer and what a reader gives from the place before the write.
abbrev pub WritesThenReads : Buffer → ℕ → (Bool × Buffer) → (Buffer → Bool × ℕ × Buffer) → Type 0
WritesThenReads b value written read =
    (written.0 ≡ true)
    × (read (buffer_restore written.1 (buffer_snapshot b)) ≡ (true, value, written.1))

u16_be :
    (b : Buffer) (value : ℕ)
    → IsValid b
    → value < 2 ^ 16
    → 2 ≤ b.size - b.offset
    → WritesThenReads b value (buffer_write_u16 b value be) (λ b'. buffer_read_u16 b' be)
unfolding buffer_write_u16 buffer_read_u16 buffer_snapshot buffer_restore
u16_be b value v small room =
    let kept =
      with_ptr-IsValid b (write_u16_be b.ptr b.offset value) v
        (length-write_u16_be b.ptr b.offset value) in
    rw
      (
        can_read_fits b 2 v,
        le→leb 2 (b.size - b.offset) room,
        seek_cur_fits (with_ptr b (write_u16_be b.ptr b.offset value)) 2 kept room,
      )
      (
        refl,
        rw (
          can_read_fits (with_ptr b (write_u16_be b.ptr b.offset value)) 2 kept,
          le→leb 2 (b.size - b.offset) room,
          seek_cur_fits (with_ptr b (write_u16_be b.ptr b.offset value)) 2 kept room,
          read_u16-write_u16_be b.ptr b.offset value (omega arith) small,
        ),
      )

u16_le :
    (b : Buffer) (value : ℕ)
    → IsValid b
    → value < 2 ^ 16
    → 2 ≤ b.size - b.offset
    → WritesThenReads b value (buffer_write_u16 b value le) (λ b'. buffer_read_u16 b' le)
unfolding buffer_write_u16 buffer_read_u16 buffer_snapshot buffer_restore
u16_le b value v small room =
    let kept =
      with_ptr-IsValid b (write_u16_le b.ptr b.offset value) v
        (length-write_u16_le b.ptr b.offset value) in
    rw
      (
        can_read_fits b 2 v,
        le→leb 2 (b.size - b.offset) room,
        seek_cur_fits (with_ptr b (write_u16_le b.ptr b.offset value)) 2 kept room,
      )
      (
        refl,
        rw (
          can_read_fits (with_ptr b (write_u16_le b.ptr b.offset value)) 2 kept,
          le→leb 2 (b.size - b.offset) room,
          seek_cur_fits (with_ptr b (write_u16_le b.ptr b.offset value)) 2 kept room,
          read_u16-write_u16_le b.ptr b.offset value (omega arith) small,
        ),
      )

u32_be :
    (b : Buffer) (value : ℕ)
    → IsValid b
    → value < 2 ^ 32
    → 4 ≤ b.size - b.offset
    → WritesThenReads b value (buffer_write_u32 b value be) (λ b'. buffer_read_u32 b' be)
unfolding buffer_write_u32 buffer_read_u32 buffer_snapshot buffer_restore
u32_be b value v small room =
    let kept =
      with_ptr-IsValid b (write_u32_be b.ptr b.offset value) v
        (length-write_u32_be b.ptr b.offset value) in
    rw
      (
        can_read_fits b 4 v,
        le→leb 4 (b.size - b.offset) room,
        seek_cur_fits (with_ptr b (write_u32_be b.ptr b.offset value)) 4 kept room,
      )
      (
        refl,
        rw (
          can_read_fits (with_ptr b (write_u32_be b.ptr b.offset value)) 4 kept,
          le→leb 4 (b.size - b.offset) room,
          seek_cur_fits (with_ptr b (write_u32_be b.ptr b.offset value)) 4 kept room,
          read_u32-write_u32_be b.ptr b.offset value (omega arith) small,
        ),
      )

u32_le :
    (b : Buffer) (value : ℕ)
    → IsValid b
    → value < 2 ^ 32
    → 4 ≤ b.size - b.offset
    → WritesThenReads b value (buffer_write_u32 b value le) (λ b'. buffer_read_u32 b' le)
unfolding buffer_write_u32 buffer_read_u32 buffer_snapshot buffer_restore
u32_le b value v small room =
    let kept =
      with_ptr-IsValid b (write_u32_le b.ptr b.offset value) v
        (length-write_u32_le b.ptr b.offset value) in
    rw
      (
        can_read_fits b 4 v,
        le→leb 4 (b.size - b.offset) room,
        seek_cur_fits (with_ptr b (write_u32_le b.ptr b.offset value)) 4 kept room,
      )
      (
        refl,
        rw (
          can_read_fits (with_ptr b (write_u32_le b.ptr b.offset value)) 4 kept,
          le→leb 4 (b.size - b.offset) room,
          seek_cur_fits (with_ptr b (write_u32_le b.ptr b.offset value)) 4 kept room,
          read_u32-write_u32_le b.ptr b.offset value (omega arith) small,
        ),
      )

u64_be :
    (b : Buffer) (value : ℕ)
    → IsValid b
    → value < 2 ^ 64
    → 8 ≤ b.size - b.offset
    → WritesThenReads b value (buffer_write_u64 b value be) (λ b'. buffer_read_u64 b' be)
unfolding buffer_write_u64 buffer_read_u64 buffer_snapshot buffer_restore
u64_be b value v small room =
    let kept =
      with_ptr-IsValid b (write_u64_be b.ptr b.offset value) v
        (length-write_u64_be b.ptr b.offset value) in
    rw
      (
        can_read_fits b 8 v,
        le→leb 8 (b.size - b.offset) room,
        seek_cur_fits (with_ptr b (write_u64_be b.ptr b.offset value)) 8 kept room,
      )
      (
        refl,
        rw (
          can_read_fits (with_ptr b (write_u64_be b.ptr b.offset value)) 8 kept,
          le→leb 8 (b.size - b.offset) room,
          seek_cur_fits (with_ptr b (write_u64_be b.ptr b.offset value)) 8 kept room,
          read_u64-write_u64_be b.ptr b.offset value (omega arith) small,
        ),
      )

u64_le :
    (b : Buffer) (value : ℕ)
    → IsValid b
    → value < 2 ^ 64
    → 8 ≤ b.size - b.offset
    → WritesThenReads b value (buffer_write_u64 b value le) (λ b'. buffer_read_u64 b' le)
unfolding buffer_write_u64 buffer_read_u64 buffer_snapshot buffer_restore
u64_le b value v small room =
    let kept =
      with_ptr-IsValid b (write_u64_le b.ptr b.offset value) v
        (length-write_u64_le b.ptr b.offset value) in
    rw
      (
        can_read_fits b 8 v,
        le→leb 8 (b.size - b.offset) room,
        seek_cur_fits (with_ptr b (write_u64_le b.ptr b.offset value)) 8 kept room,
      )
      (
        refl,
        rw (
          can_read_fits (with_ptr b (write_u64_le b.ptr b.offset value)) 8 kept,
          le→leb 8 (b.size - b.offset) room,
          seek_cur_fits (with_ptr b (write_u64_le b.ptr b.offset value)) 8 kept room,
          read_u64-write_u64_le b.ptr b.offset value (omega arith) small,
        ),
      )

u16_back :
    (b : Buffer) (value : ℕ) (e : Endianness)
    → IsValid b
    → value < 2 ^ 16
    → 2 ≤ b.size - b.offset
    → WritesThenReads b value (buffer_write_u16 b value e) (λ b'. buffer_read_u16 b' e)
u16_back b value be v small room = u16_be b value v small room
u16_back b value le v small room = u16_le b value v small room

u32_back :
    (b : Buffer) (value : ℕ) (e : Endianness)
    → IsValid b
    → value < 2 ^ 32
    → 4 ≤ b.size - b.offset
    → WritesThenReads b value (buffer_write_u32 b value e) (λ b'. buffer_read_u32 b' e)
u32_back b value be v small room = u32_be b value v small room
u32_back b value le v small room = u32_le b value v small room

u64_back :
    (b : Buffer) (value : ℕ) (e : Endianness)
    → IsValid b
    → value < 2 ^ 64
    → 8 ≤ b.size - b.offset
    → WritesThenReads b value (buffer_write_u64 b value e) (λ b'. buffer_read_u64 b' e)
u64_back b value be v small room = u64_be b value v small room
u64_back b value le v small room = u64_le b value v small room

-- Where a valid buffer has eight bytes left, writing a 16-, 32- or 64-bit value succeeds in either
-- byte order, and reading in that order from the snapshot taken before the write gives the value back
-- and leaves the buffer as the write left it.
pub buffer_read-write :
    (b : Buffer) (x y z : ℕ) (e : Endianness)
    → IsValid b
    → x < 2 ^ 16
    → y < 2 ^ 32
    → z < 2 ^ 64
    → 8 ≤ b.size - b.offset
    → WritesThenReads b x (buffer_write_u16 b x e) (λ b'. buffer_read_u16 b' e)
      × WritesThenReads b y (buffer_write_u32 b y e) (λ b'. buffer_read_u32 b' e)
      × WritesThenReads b z (buffer_write_u64 b z e) (λ b'. buffer_read_u64 b' e)
buffer_read-write b x y z e v hx hy hz room =
    (u16_back b x e v hx (omega arith), u32_back b y e v hy (omega arith), u64_back b z e v hz room)
