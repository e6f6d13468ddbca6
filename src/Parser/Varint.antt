-- ===== src/Parser/Varint.antt =====
-- `dbuffer_read_varint` of common/parser.c against `varint_read` of common/varint.c.
use app_bitcoin_new.Prelude.{
  ℕ, suc, ◌+◌, ◌-◌, ◌≤◌, ◌≡◌, refl, sym, ap, ap₂, ◌∙◌, arith, List, [], ◌∷◌, ◌++◌, Option, none,
  some, Bool, true, false, take, drop, put_at, replicate, length, All, ltb, leb, ◌==◌,
  if◌then◌else◌, Bool-cases, inl, inr, length-drop, leb→le,
}
use mathlib.Core.Option
use app_bitcoin_new.Bytes.{IsByte, at, read_u16_le, read_u32_le, read_u64_le}
use app_bitcoin_new.Bytes.Value.{read_u16_le-value, read_u32_le-value, read_u64_le-value}
use app_bitcoin_new.Varint.{varint_read}
use app_bitcoin_new.Buffer.Stream.{
  remaining, remaining-cons, remaining-nil, can_read_fits, length-remaining,
}
use app_bitcoin_new.Parser.{
  Dbuffer, dbuffer_read_bytes, bytes_or_same, peek_first, varint_len, dbuffer_read_varint,
}
use app_bitcoin_new.Parser.Stream.{
  IsValidPair, stream, ReadOf, dbuffer_read_bytes-ReadOf, dbuffer_can_read_fits,
}

-- The number behind the prefix, from its bytes.
abbrev pub long_value : List ℕ → ℕ
long_value bytes = read_u64_le (put_at (replicate 8 0) 0 bytes) 0

-- The stream's side.
unfoldable pub take_varint : List ℕ → Option (ℕ × List ℕ)
take_varint s =
    if ltb (length s) 1
    then none
    else let len = varint_len (at s 0) in
      if ltb (length s) (1 + len)
      then none
      else (if leb (at s 0) 0xfc
          then some (at s 0, drop 1 s)
          else some (long_value (take len (drop 1 s)), drop len (drop 1 s)))

-- A read of bytes that are there.
pub bytes_or_same-take :
    (d : Dbuffer) (n : ℕ)
    → IsValidPair d
    → n ≤ length (stream d)
    → ((bytes_or_same d (dbuffer_read_bytes d n)).0 ≡ take n (stream d))
      × (stream (bytes_or_same d (dbuffer_read_bytes d n)).1 ≡ drop n (stream d))
      × IsValidPair (bytes_or_same d (dbuffer_read_bytes d n)).1
unfolding ReadOf bytes_or_same
bytes_or_same-take d n v h = go (dbuffer_read_bytes d n) (dbuffer_read_bytes-ReadOf d n v)
  where
    go :
        (o : Option (List ℕ × Dbuffer))
        → ReadOf d n o
        → ((bytes_or_same d o).0 ≡ take n (stream d))
          × (stream (bytes_or_same d o).1 ≡ drop n (stream d))
          × IsValidPair (bytes_or_same d o).1
    go none r = absurd (omega arith)
    go (some (out, d')) (_, o, s, v') = (o, s, v')

at-append : (xs ys : List ℕ) (x : ℕ) (zs : List ℕ) → xs ≡ x ∷ zs → at (xs ++ ys) 0 ≡ x
at-append xs ys x zs e = rw e refl

pub peek_first-stream :
    (d : Dbuffer) → IsValidPair d → 1 ≤ length (stream d) → peek_first d ≡ at (stream d) 0
unfolding peek_first
peek_first-stream d v h = elim (Bool-cases (leb 1 (d.first.size - d.first.offset))) [
  | inl some_first ↦
      rw (can_read_fits d.first 1 v.first, some_first)
        (sym (at-append _ (remaining d.second) _ _ (remaining-cons d.first v.first (ground arith))))
  | inr no_first ↦
      let empty : remaining d.first ≡ [] = remaining-nil d.first (ground arith) in
      rw (can_read_fits d.first 1 v.first, no_first, empty)
        (sym (
          ap (λ (l : List ℕ). at l 0)
            (remaining-cons d.second v.second
              (omega (arith, rw empty at h, length-remaining d.second v.second)))))
]

at-take : (n : ℕ) (s : List ℕ) → at (take (suc n) s) 0 ≡ at s 0
at-take n [] = refl
at-take n (x ∷ s) = refl

both :
    (b : Bool) (x y : Option (ℕ × Dbuffer)) (x' y' : Option (ℕ × List ℕ))
    → Option.map (λ (r : ℕ × Dbuffer). (r.0, stream r.1)) x ≡ x'
    → Option.map (λ (r : ℕ × Dbuffer). (r.0, stream r.1)) y ≡ y'
    → Option.map (λ (r : ℕ × Dbuffer). (r.0, stream r.1)) (if b then x else y)
      ≡ (if b then x' else y')
both true x y x' y' p q = p
both false x y x' y' p q = q

-- `dbuffer_read_varint` on the stream.
pub dbuffer_read_varint-take_varint :
    (d : Dbuffer)
    → IsValidPair d
    → Option.map (λ (r : ℕ × Dbuffer). (r.0, stream r.1)) (dbuffer_read_varint d)
      ≡ take_varint (stream d)
unfolding dbuffer_read_varint take_varint
dbuffer_read_varint-take_varint d v = elim (Bool-cases (leb 1 (length (stream d)))) [
  | inr empty ↦
      let short : ltb (length (stream d)) 1 ≡ true = ground arith in
      rw (dbuffer_can_read_fits d 1 v, empty, short) refl
  | inl one ↦
      let long : ltb (length (stream d)) 1 ≡ false = ground arith in
      let len = varint_len (at (stream d) 0) in
      elim (Bool-cases (leb (1 + len) (length (stream d)))) [
        | inr cut ↦
            let cut' : ltb (length (stream d)) (1 + len) ≡ true = ground arith in
            rw
              (
                dbuffer_can_read_fits d 1 v,
                one,
                long,
                peek_first-stream d v (ground arith),
                dbuffer_can_read_fits d (1 + len) v,
                cut,
                cut',
              )
              refl
        | inl whole ↦
            let whole' : ltb (length (stream d)) (1 + len) ≡ false = ground arith in
            let (o1, s1, v1) = bytes_or_same-take d 1 v (ground arith) in
            let d1 = (bytes_or_same d (dbuffer_read_bytes d 1)).1 in
            let behind : len ≤ length (drop 1 (stream d)) =
              omega (arith, length-drop {0} 1 (stream d), leb→le _ _ whole) in
            let (o2, s2, v2) = bytes_or_same-take d1 len v1 (rw s1 behind) in
            let first : at (bytes_or_same d (dbuffer_read_bytes d 1)).0 0 ≡ at (stream d) 0 =
              ap (λ (l : List ℕ). at l 0) o1 ∙ at-take 0 (stream d) in
            rw
              (
                dbuffer_can_read_fits d 1 v,
                one,
                long,
                peek_first-stream d v (ground arith),
                dbuffer_can_read_fits d (1 + len) v,
                whole,
                whole',
                first,
              )
              (both (leb (at (stream d) 0) 0xfc) _ _ _ _
                (ap (λ (t : List ℕ). some (at (stream d) 0, t)) s1)
                (ap₂ (λ (a t : List ℕ). some (long_value a, t)) (o2 ∙ ap (take len) s1)
                  (s2 ∙ ap (drop len) s1)))
      ]
]

z : IsByte 0
z = omega arith

-- The zeroed array of eight bytes holds a number of fewer bytes as well.
padded-u16 : (s : List ℕ) → All IsByte s → 2 ≤ length s → long_value (take 2 s) ≡ read_u16_le s 0
padded-u16 [] h le = absurd (omega arith)
padded-u16 (a ∷ []) h le = absurd (omega arith)
padded-u16 (a ∷ b ∷ s) (ha, (hb, h)) le =
    let p =
      read_u64_le-value (a ∷ b ∷ replicate 6 0) 0 (ha, (hb, (z, (z, (z, (z, (z, (z, tt)))))))) in
    let q = read_u16_le-value (a ∷ b ∷ s) 0 (ha, (hb, tt)) in omega (arith, p, q)

padded-u32 : (s : List ℕ) → All IsByte s → 4 ≤ length s → long_value (take 4 s) ≡ read_u32_le s 0
padded-u32 [] h le = absurd (omega arith)
padded-u32 (a ∷ []) h le = absurd (omega arith)
padded-u32 (a ∷ b ∷ []) h le = absurd (omega arith)
padded-u32 (a ∷ b ∷ c ∷ []) h le = absurd (omega arith)
padded-u32 (a ∷ b ∷ c ∷ d ∷ s) (ha, (hb, (hc, (hd, h)))) le =
    let p =
      read_u64_le-value (a ∷ b ∷ c ∷ d ∷ replicate 4 0) 0
        (ha, (hb, (hc, (hd, (z, (z, (z, (z, tt)))))))) in
    let q = read_u32_le-value (a ∷ b ∷ c ∷ d ∷ s) 0 (ha, (hb, (hc, (hd, tt)))) in
    omega (arith, p, q)

-- Eight bytes are all of the array.
padded-u64 : (s : List ℕ) → 8 ≤ length s → long_value (take 8 s) ≡ read_u64_le s 0
unfolding read_u64_le
padded-u64 (a ∷ b ∷ c ∷ d ∷ e ∷ f ∷ g ∷ i ∷ s) le = refl
padded-u64 [] le = absurd (omega arith)
padded-u64 (a ∷ []) le = absurd (omega arith)
padded-u64 (a ∷ b ∷ []) le = absurd (omega arith)
padded-u64 (a ∷ b ∷ c ∷ []) le = absurd (omega arith)
padded-u64 (a ∷ b ∷ c ∷ d ∷ []) le = absurd (omega arith)
padded-u64 (a ∷ b ∷ c ∷ d ∷ e ∷ []) le = absurd (omega arith)
padded-u64 (a ∷ b ∷ c ∷ d ∷ e ∷ f ∷ []) le = absurd (omega arith)
padded-u64 (a ∷ b ∷ c ∷ d ∷ e ∷ f ∷ g ∷ []) le = absurd (omega arith)

read_u16_le-tail : (x : ℕ) (s : List ℕ) → read_u16_le (x ∷ s) 1 ≡ read_u16_le s 0
unfolding read_u16_le
read_u16_le-tail x s = refl

read_u32_le-tail : (x : ℕ) (s : List ℕ) → read_u32_le (x ∷ s) 1 ≡ read_u32_le s 0
unfolding read_u32_le
read_u32_le-tail x s = refl

read_u64_le-tail : (x : ℕ) (s : List ℕ) → read_u64_le (x ∷ s) 1 ≡ read_u64_le s 0
unfolding read_u64_le
read_u64_le-tail x s = refl

-- What `varint_read` takes of all bytes, in the same form.
abbrev pub read_front : List ℕ → Option (ℕ × List ℕ)
read_front s = Option.map (λ (r : ℕ × ℕ). (r.1, drop r.0 s)) (varint_read s (length s))

take_varint-read_front : (s : List ℕ) → All IsByte s → take_varint s ≡ read_front s
unfolding take_varint varint_read varint_len
take_varint-read_front [] h = refl
take_varint-read_front (x ∷ s) (hx, h) =
    let some_byte : ltb (suc (length s)) 1 ≡ false = ground arith in
    elim (Bool-cases (x == 0xfd)) [
      | inl fd ↦
          let big : leb x 0xfc ≡ false = ground arith in
          elim (Bool-cases (ltb (suc (length s)) 3)) [
            | inl cut ↦ rw (some_byte, fd, cut) refl
            | inr whole ↦
                rw (some_byte, fd, whole, big, padded-u16 s h (ground arith), read_u16_le-tail x s)
                  refl
          ]
      | inr not_fd ↦ elim (Bool-cases (x == 0xfe)) [
        | inl fe ↦
            let big : leb x 0xfc ≡ false = ground arith in
            elim (Bool-cases (ltb (suc (length s)) 5)) [
              | inl cut ↦ rw (some_byte, not_fd, fe, cut) refl
              | inr whole ↦
                  rw
                    (
                      some_byte,
                      not_fd,
                      fe,
                      whole,
                      big,
                      padded-u32 s h (ground arith),
                      read_u32_le-tail x s,
                    )
                    refl
            ]
        | inr not_fe ↦ elim (Bool-cases (x == 0xff)) [
          | inl ff ↦
              let big : leb x 0xfc ≡ false = ground arith in
              elim (Bool-cases (ltb (suc (length s)) 9)) [
                | inl cut ↦ rw (some_byte, not_fd, not_fe, ff, cut) refl
                | inr whole ↦
                    rw
                      (
                        some_byte,
                        not_fd,
                        not_fe,
                        ff,
                        whole,
                        big,
                        padded-u64 s (ground arith),
                        read_u64_le-tail x s,
                      )
                      refl
              ]
          | inr not_ff ↦
              let small : leb x 0xfc ≡ true = ground arith in
              rw (some_byte, not_fd, not_fe, not_ff, some_byte, small) refl
        ]
      ]
    ]

-- On two valid buffers of bytes whose sizes have a sum of 32 bits, `dbuffer_read_varint` takes what
-- `varint_read` takes of the bytes that remain in the first buffer and then in the second, and fails where
-- `varint_read` fails.
pub dbuffer_read_varint-varint_read :
    (d : Dbuffer)
    → IsValidPair d
    → All IsByte (stream d)
    → Option.map (λ (r : ℕ × Dbuffer). (r.0, stream r.1)) (dbuffer_read_varint d)
      ≡ read_front (stream d)
dbuffer_read_varint-varint_read d v h =
    dbuffer_read_varint-take_varint d v ∙ take_varint-read_front (stream d) h
