-- ===== src/Parser/Stream.antt =====
-- The readers of common/parser.c against a plain stream of bytes: what remains in the first buffer, then
-- what remains in the second.
use app_bitcoin_new.Prelude.{
  ℕ, zero, suc, ◌+◌, ◌-◌, ◌^◌, ◌≤◌, ◌<◌, ◌≡◌, refl, sym, ap, ap₂, ◌∙◌, arith, List, ◌++◌, Option,
  none, some, true, false, take, drop, length, length-append, take-take, ltb, leb, if◌then◌else◌,
  Bool-cases, inl, inr, take-append, drop-append, take-all, drop-all, min,
}
use native.Mathlib.Decide.{dec_lt}
use mathlib.Core.Option
use app_bitcoin_new.Buffer.{Buffer, add_size, sub_size, buffer_read_bytes, buffer_get_cur}
use app_bitcoin_new.Buffer.Invariant.{IsValid}
use app_bitcoin_new.Buffer.Stream.{
  remaining, length-remaining, seek_cur_fits, remaining-seek_cur, take_bytes,
}
use app_bitcoin_new.Parser.{
  Dbuffer, dbuffer_get_length, dbuffer_can_read, read_part, dbuffer_read_bytes,
}

-- Two valid buffers whose sizes have a sum of 32 bits.
pub record IsValidPair (d : Dbuffer) : Type 0 where
  pub first : IsValid d.first
  pub second : IsValid d.second
  pub small : d.first.size + d.second.size < 2 ^ 32

abbrev pub stream : Dbuffer → List ℕ
stream d = remaining d.first ++ remaining d.second

take-min : (n n0 : ℕ) (xs : List ℕ) → n0 ≡ min n (length xs) → take n0 xs ≡ take n xs
take-min n n0 xs e = elim (dec_lt n (length xs)) [
  | yes p ↦ let s : n0 ≡ n = omega arith in rw s
  | no p ↦ take-all n0 xs (omega arith) ∙ sym (take-all n xs (omega arith))
]

drop-min : (n n0 : ℕ) (xs : List ℕ) → n0 ≡ min n (length xs) → drop n0 xs ≡ drop n xs
drop-min n n0 xs e = elim (dec_lt n (length xs)) [
  | yes p ↦ let s : n0 ≡ n = omega arith in rw s
  | no p ↦ drop-all n0 xs (omega arith) ∙ sym (drop-all n xs (omega arith))
]

-- What `read_part` leaves.
PartOf : Buffer → ℕ → List ℕ × Buffer → Type 0
PartOf b n (out, b') =
    (out ≡ take n (remaining b))
    × (remaining b' ≡ drop n (remaining b))
    × IsValid b'
    × (b'.size ≡ b.size)

read_part-PartOf :
    (b : Buffer) (n : ℕ) → IsValid b → n ≤ b.size - b.offset → PartOf b n (read_part b n)
unfolding read_part buffer_read_bytes PartOf
read_part-PartOf b zero v h = (refl, refl, v, refl)
read_part-PartOf b (suc n) v h =
    let positive : ltb 0 (suc n) ≡ true = ground arith in
    let enough : ltb (sub_size b.size b.offset) (suc n) ≡ false = ground (arith, v.small) in
    let v' : IsValid (record b { offset = b.offset + suc n }) = record {
      within = omega arith;
      region = v.region;
      small = v.small;
    } in
    rw (positive, enough, read_part)
      (
        sym (take-take (suc n) (b.size - b.offset) (buffer_get_cur b) h),
        remaining-seek_cur b (suc n) v h,
        rw (seek_cur_fits b (suc n) v h) v',
        rw (seek_cur_fits b (suc n) v h) refl,
      )

-- What a read of `n` bytes gives.
unfoldable pub ReadOf : Dbuffer → ℕ → Option (List ℕ × Dbuffer) → Type 0
ReadOf d n none = length (stream d) < n
ReadOf d n (some (out, d')) =
    (n ≤ length (stream d))
    × (out ≡ take n (stream d))
    × (stream d' ≡ drop n (stream d))
    × IsValidPair d'

pub length-stream :
    (d : Dbuffer)
    → IsValidPair d
    → length (stream d) ≡ (d.first.size - d.first.offset) + (d.second.size - d.second.offset)
length-stream d v = omega (
  arith,
  length-append (remaining d.first) (remaining d.second),
  length-remaining d.first v.first,
  length-remaining d.second v.second,
)

-- The parts that a read of `n` bytes takes from the two buffers.
parts-ReadOf :
    (d : Dbuffer) (n n0 : ℕ) (p q : List ℕ × Buffer)
    → IsValidPair d
    → n ≤ length (stream d)
    → n0 ≡ min n (length (remaining d.first))
    → PartOf d.first n0 p
    → PartOf d.second (n - n0) q
    → ReadOf d n (some (p.0 ++ q.0, record { first = p.1; second = q.1 }))
unfolding PartOf ReadOf
parts-ReadOf d n n0 (out0, b0) (out1, b1) v fits is_min (o0, r0, v0, s0) (o1, r1, v1, s1) =
    let l = length (remaining d.first) in
    let rest : n - n0 ≡ n - l = omega arith in
    (
      fits,
      rw (
        take-append n (remaining d.first) (remaining d.second),
        o0,
        o1,
        rest,
        ← take-min n n0 (remaining d.first) is_min,
      ),
      rw (
        r0,
        r1,
        drop-append n (remaining d.first) (remaining d.second),
        rest,
        ← drop-min n n0 (remaining d.first) is_min,
      ),
      record { first = v0; second = v1; small = omega (arith, v.small, s0, s1) },
    )

sub_fits : (a b : ℕ) → b ≤ a → a < 2 ^ 32 → sub_size a b ≡ a - b
sub_fits a b le small = omega arith

pub dbuffer_read_bytes-ReadOf :
    (d : Dbuffer) (n : ℕ) → IsValidPair d → ReadOf d n (dbuffer_read_bytes d n)
unfolding dbuffer_read_bytes ReadOf
dbuffer_read_bytes-ReadOf d n v =
    let length0 = sub_size d.first.size d.first.offset in
    let length1 = sub_size d.second.size d.second.offset in
    let n0 = if leb n length0 then n else length0 in
    let v0 = v.first in
    let v1 = v.second in
    let l0 : length0 ≡ d.first.size - d.first.offset = omega (arith, v0.within, v0.small) in
    let l1 : length1 ≡ d.second.size - d.second.offset = omega (arith, v1.within, v1.small) in
    let total : add_size length0 length1 ≡ length (stream d) =
      omega (arith, l0, l1, v.small, length-stream d v) in
    elim (Bool-cases (ltb (add_size length0 length1) n)) [
      | inl short ↦ let less : length (stream d) < n = ground arith in rw (short, ReadOf) less
      | inr enough ↦
          let fits : n ≤ length (stream d) = ground arith in
          let is_min : n0 ≡ min n (length (remaining d.first)) =
            ground (arith, l0, length-remaining d.first v0) in
          let second : sub_size n n0 ≡ n - n0 =
            sub_fits n n0 (omega (arith, is_min))
              (omega (arith, fits, length-stream d v, v.small)) in
          rw (enough, ReadOf)
            (parts-ReadOf d n n0 (read_part d.first n0) (read_part d.second (sub_size n n0)) v fits
              is_min
              (read_part-PartOf d.first n0 v0 (omega (arith, is_min, length-remaining d.first v0)))
              (rw second (
                read_part-PartOf d.second (n - n0) v1
                  (omega (arith, is_min, fits, length-stream d v, length-remaining d.first v0)))))
    ]

-- On two valid buffers whose sizes have a sum of 32 bits, `dbuffer_read_bytes` takes the first `n` bytes of
-- what remains in the first buffer and then in the second, and leaves the others; it fails exactly if
-- fewer than `n` bytes remain.
pub dbuffer_read_bytes-take_bytes :
    (d : Dbuffer) (n : ℕ)
    → IsValidPair d
    → Option.map (λ (r : List ℕ × Dbuffer). (r.0, stream r.1)) (dbuffer_read_bytes d n)
      ≡ take_bytes (stream d) n
unfolding ReadOf take_bytes
dbuffer_read_bytes-take_bytes d n v =
    from_ReadOf (dbuffer_read_bytes d n) (dbuffer_read_bytes-ReadOf d n v)
  where
    from_ReadOf :
        (o : Option (List ℕ × Dbuffer))
        → ReadOf d n o
        → Option.map (λ (r : List ℕ × Dbuffer). (r.0, stream r.1)) o ≡ take_bytes (stream d) n
    from_ReadOf none h =
        let short : ltb (length (stream d)) n ≡ true = ground arith in rw short refl
    from_ReadOf (some (out, d')) (fits, o, s, v') =
        let enough : ltb (length (stream d)) n ≡ false = ground arith in
        rw enough (ap₂ (λ (a b : List ℕ). some (a, b)) o s)

-- What may be read of a valid pair.
pub dbuffer_can_read_fits :
    (d : Dbuffer) (n : ℕ) → IsValidPair d → dbuffer_can_read d n ≡ leb n (length (stream d))
unfolding dbuffer_can_read dbuffer_get_length
dbuffer_can_read_fits d n v =
    let v0 = v.first in
    let v1 = v.second in
    let total : dbuffer_get_length d ≡ length (stream d) =
      omega (arith, v0.within, v0.small, v1.within, v1.small, v.small, length-stream d v) in
    ap (leb n) total
