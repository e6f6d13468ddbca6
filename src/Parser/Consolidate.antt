-- ===== src/Parser/Consolidate.antt =====
-- `parser_consolidate_buffers` of common/parser.c: the bytes that remain move to the first region.
use app_bitcoin_new.Prelude.{
  ℕ, ◌+◌, ◌-◌, ◌^◌, ◌≤◌, ◌<◌, ◌≡◌, refl, ap, ◌∙◌, arith, List, ◌++◌, some, false, take, put_at,
  length, length-append, length-put_at, take-put_at, ltb,
}
use app_bitcoin_new.Buffer.{Buffer, add_size, sub_size, buffer_get_cur}
use app_bitcoin_new.Buffer.Invariant.{IsValid}
use app_bitcoin_new.Buffer.Stream.{remaining, length-remaining}
use app_bitcoin_new.Parser.{Dbuffer, parser_consolidate_buffers}
use app_bitcoin_new.Parser.Stream.{IsValidPair, stream}

-- The bytes behind the front of a region, where the front was filled before.
moved :
    (ptr xs ys : List ℕ)
    → length xs + length ys ≤ length ptr
    → take (length xs + length ys) (put_at (put_at ptr 0 xs) (length xs) ys) ≡ xs ++ ys
moved ptr xs ys fits =
    let front : take (length xs) (put_at ptr 0 xs) ≡ xs =
      let e : 0 + length xs ≡ length xs = omega arith in
      rw e at (take-put_at ptr 0 xs (omega arith)) in
    take-put_at (put_at ptr 0 xs) (length xs) ys (omega (arith, length-put_at ptr 0 xs))
    ∙ ap (λ (zs : List ℕ). zs ++ ys) front

-- Where the sizes of two valid buffers have a sum of 32 bits and the first region has room for `max_size`
-- bytes: if no more than `max_size` bytes remain, `parser_consolidate_buffers` succeeds and leaves the first
-- buffer valid, with the cursor at the start and exactly
-- these bytes to read, those of the first buffer before those of the second.
pub parser_consolidate_buffers-remaining :
    (d : Dbuffer) (max_size : ℕ)
    → IsValidPair d
    → max_size ≤ length d.first.ptr
    → length (stream d) ≤ max_size
    → (d' : Dbuffer) × (parser_consolidate_buffers d max_size ≡ some d')
      × (remaining d'.first ≡ stream d)
      × IsValid d'.first
      × (d'.first.offset ≡ 0)
      × (length d'.first.ptr ≡ length d.first.ptr)
unfolding parser_consolidate_buffers
parser_consolidate_buffers-remaining d max_size v room few =
    let v0 = v.first in
    let v1 = v.second in
    let length0 = sub_size d.first.size d.first.offset in
    let length1 = sub_size d.second.size d.second.offset in
    let l0 : length0 ≡ d.first.size - d.first.offset = omega (arith, v0.within, v0.small) in
    let l1 : length1 ≡ d.second.size - d.second.offset = omega (arith, v1.within, v1.small) in
    let total : add_size length0 length1
        ≡ length (remaining d.first) + length (remaining d.second) =
      omega (arith, l0, l1, v.small, length-remaining d.first v0, length-remaining d.second v1) in
    let fits : ltb max_size (add_size length0 length1) ≡ false =
      ground (arith, total, length-append (remaining d.first) (remaining d.second)) in
    let xs = remaining d.first in
    let ys = remaining d.second in
    let len0 : length xs ≡ d.first.size - d.first.offset = length-remaining d.first v0 in
    let new = put_at (put_at d.first.ptr 0 xs) (length xs) ys in
    let same : put_at (put_at d.first.ptr 0 (take length0 (buffer_get_cur d.first))) length0
          (take length1 (buffer_get_cur d.second))
        ≡ new =
      rw (l0, l1, len0) refl in
    let len_new : length new ≡ length d.first.ptr = omega (
      arith,
      length-put_at (put_at d.first.ptr 0 xs) (length xs) ys,
      length-put_at d.first.ptr 0 xs,
    ) in
    let room' : length xs + length ys ≤ length d.first.ptr =
      omega (arith, few, room, length-append xs ys) in
    let all : add_size length0 length1 - 0 ≡ length xs + length ys = omega (arith, total) in
    let small : add_size length0 length1 < 2 ^ 32 = omega arith in
    let b : Buffer = record d.first { ptr = new; offset = 0; size = add_size length0 length1 } in
    (
      record d { first = b },
      rw (fits, same) refl,
      rw all (moved d.first.ptr xs ys room'),
      record { within = omega arith; region = omega (arith, total, room', len_new); small = small },
      refl,
      len_new,
    )
