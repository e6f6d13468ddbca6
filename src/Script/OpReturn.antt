-- ===== src/Script/OpReturn.antt =====
-- What `format_opscript_script` writes.
use app_bitcoin_new.Prelude.{
  ℕ, zero, suc, ◌+◌, ◌*◌, ◌≤◌, ◌<◌, ◌/◌, ◌%◌, ◌≡◌, ◌∙◌, ap, ◌⊎◌, inl, inr, refl, List, [], ◌∷◌,
  ◌++◌, length, length-append, sym, append-nil, some, ltb, leb, if◌then◌else◌, arith, Bool-cases,
  Option-cases, drop, All,
}
use app_bitcoin_new.Bytes.{at, IsByte}
use app_bitcoin_new.Script.{
  op_return_text, hex, hex_loop, describe_push, hex_part, format_opscript_script,
}

-- MAX_OPRETURN_OUTPUT_DESC_SIZE
abbrev pub max_opreturn_output_desc_size : ℕ
max_opreturn_output_desc_size = 12 + 80 * 2 + 1

length-hex_loop : (script : List ℕ) (o i n : ℕ) → length (hex_loop script o i n) ≡ 2 * n
unfolding hex_loop
length-hex_loop script o i zero = refl
length-hex_loop script o i (suc n) = omega (arith, length-hex_loop script o (i + 1) n)

length-hex_part : (script : List ℕ) (o n : ℕ) → length (hex_part script o n) ≤ 2 + 2 * n
unfolding hex_part
length-hex_part script o n = ground (arith, length-hex_loop script o 0 n)

describe_push_bounds :
    (opcode : ℕ) (script : List ℕ) (script_len : ℕ) (chars : List ℕ) (o n : ℕ)
    → describe_push opcode script script_len ≡ some (chars, o, n)
    → (length chars + 2 * n ≤ 160) × ((n ≡ 0) ⊎ (chars ≡ [])) × (2 ≤ script_len)
unfolding describe_push
describe_push_bounds opcode script script_len chars o n e = ground arith

-- What `format_opscript_script` writes fits MAX_OPRETURN_OUTPUT_DESC_SIZE, and a script that it accepts
-- has at least two bytes.
pub format_opscript_script_bounds :
    (script : List ℕ) (script_len : ℕ) (out : List ℕ)
    → format_opscript_script script script_len ≡ some out
    → (length out ≤ max_opreturn_output_desc_size) × (2 ≤ script_len)
unfolding format_opscript_script
format_opscript_script_bounds script script_len out e =
    elim (Option-cases (describe_push (at script 1) script script_len)) [
      | inl p ↦ let e' = rw p at e in ground arith
      | inr ((chars, o, n), p) ↦
          let (small, _, two) = describe_push_bounds (at script 1) script script_len chars o n p in
          let e' = rw p at e in
          let part = length-hex_part script o n in
          let len = length-append {0} chars (hex_part script o n ++ (0 ∷ [])) in
          let len' = length-append {0} (hex_part script o n) (0 ∷ []) in
          let whole : op_return_text ++ (chars ++ (hex_part script o n ++ (0 ∷ []))) ≡ out =
            ground arith in
          let total = ap length whole in (omega (arith, small, part, len, len', total), two)
    ]

-- The digit of a number below 16.
abbrev pub digit : ℕ → ℕ
digit d = if ltb d 10 then 48 + d else 87 + d

-- Two digits for each byte.
abbrev pub to_hex : List ℕ → List ℕ
to_hex [] = []
to_hex (x ∷ xs) = digit (x / 16) ∷ digit (x % 16) ∷ to_hex xs

at-front :
    (xs : List ℕ) (o x : ℕ) (rest : List ℕ)
    → drop o xs ≡ x ∷ rest
    → (at xs o ≡ x) × (drop (o + 1) xs ≡ rest)
at-front [] zero x rest e = cc
at-front (y ∷ xs) zero x rest e = (cc, cc)
at-front [] (suc o) x rest e = cc
at-front (y ∷ xs) (suc o) x rest e =
    let k : suc o + 1 ≡ suc (o + 1) = omega arith in rw k (at-front xs o x rest e)

-- The first `n` entries of a table are the values of a function from `k` on.
Tabulates : (ℕ → ℕ) → ℕ → ℕ → List ℕ → Type 0
Tabulates f k zero xs = Unit {0}
Tabulates f k (suc n) [] = zero ≡ suc zero
Tabulates f k (suc n) (x ∷ xs) = (x ≡ f k) × Tabulates f (suc k) n xs

at-Tabulates :
    (f : ℕ → ℕ) (k n d : ℕ) (xs : List ℕ) → Tabulates f k n xs → d < n → at xs d ≡ f (k + d)
unfolding Tabulates
at-Tabulates f k zero d xs t lt = absurd (omega arith)
at-Tabulates f k (suc n) d [] t lt = absurd (omega arith)
at-Tabulates f k (suc n) zero (x ∷ xs) (e, t) lt = let z : k + 0 ≡ k = omega arith in rw z e
at-Tabulates f k (suc n) (suc d) (x ∷ xs) (e, t) lt =
    let z : k + suc d ≡ suc k + d = omega arith in
    rw z (at-Tabulates f (suc k) n d xs t (omega arith))

hex-digit : (d : ℕ) → d < 16 → at hex d ≡ digit d
unfolding Tabulates
hex-digit d lt =
    let z : 0 + d ≡ d = omega arith in
    at-Tabulates digit 0 16 d hex
      (
        refl,
        (
          refl,
          (
            refl,
            (
              refl,
              (
                refl,
                (
                  refl,
                  (
                    refl,
                    (refl, (refl, (refl, (refl, (refl, (refl, (refl, (refl, (refl, tt))))))))),
                  ),
                ),
              ),
            ),
          ),
        ),
      )
      lt
    ∙ ap digit z

-- The loop writes the digits of the bytes that it goes over.
hex_loop-to_hex :
    (script : List ℕ) (o i : ℕ) (xs rest : List ℕ)
    → All IsByte xs
    → drop (o + i) script ≡ xs ++ rest
    → hex_loop script o i (length xs) ≡ to_hex xs
unfolding hex_loop
hex_loop-to_hex script o i [] rest h e = refl
hex_loop-to_hex script o i (x ∷ xs) rest (hx, h) e =
    let (now, next) = at-front script (o + i) x (xs ++ rest) e in
    let k : o + (i + 1) ≡ o + i + 1 = omega arith in
    rw (now, hex-digit (x / 16) (omega arith), hex-digit (x % 16) (omega arith))
      (ap (λ (ds : List ℕ). digit (x / 16) ∷ digit (x % 16) ∷ ds)
        (hex_loop-to_hex script o (i + 1) xs rest h (rw k next)))

-- A push of 1 to 75 bytes, or of up to 80 bytes by OP_PUSHDATA1.
abbrev pub push : List ℕ → List ℕ
push xs = if leb (length xs) 75 then length xs ∷ xs else 0x4c ∷ length xs ∷ xs

-- For 1 to 80 bytes that are pushed, `format_opscript_script` writes "OP_RETURN 0x", two hexadecimal
-- digits for each of them, and the terminating null.
pub format_opscript_script-push :
    (xs : List ℕ)
    → All IsByte xs
    → 1 ≤ length xs
    → length xs ≤ 80
    → format_opscript_script (0x6a ∷ push xs) (1 + length (push xs))
      ≡ some (op_return_text ++ (48 ∷ 120 ∷ (to_hex xs ++ (0 ∷ []))))
unfolding format_opscript_script describe_push hex_part
format_opscript_script-push xs h lo hi = elim (Bool-cases (leb (length xs) 75)) [
  | inl short ↦
      let digits = hex_loop-to_hex (0x6a ∷ length xs ∷ xs) 2 0 xs [] h (sym (append-nil xs)) in
      rw short (ground (arith, digits))
  | inr long ↦
      let digits =
        hex_loop-to_hex (0x6a ∷ 0x4c ∷ length xs ∷ xs) 3 0 xs [] h (sym (append-nil xs)) in
      rw long (ground (arith, digits))
]
