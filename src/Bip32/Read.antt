-- ===== src/Bip32/Read.antt =====
-- `bip32_path_read` of common/bip32.c.
use app_bitcoin_new.Prelude.{
  ℕ, zero, suc, ◌+◌, ◌-◌, ◌*◌, ◌≤◌, ◌<◌, ◌≡◌, refl, ◌∙◌, arith, List, true, false, length, set,
  length-set, get_or-set_self, get_or-set_ne, ltb,
}
use app_bitcoin_new.Bytes.{read_u32_be}
use app_bitcoin_new.Bip32.{step, path_read_from, bip32_path_read, max_bip32_path_steps}

-- The first number and the rest, as one sequence.
join_steps :
    (src out : List ℕ) (k i offset : ℕ)
    → step out i ≡ read_u32_be src offset
    → ((j : ℕ) → j < k → step out (i + 1 + j) ≡ read_u32_be src (offset + 4 + 4 * j))
    → (j : ℕ) → j < suc k
    → step out (i + j) ≡ read_u32_be src (offset + 4 * j)
join_steps src out k i offset first rest zero h =
    let e : i + 0 ≡ i = omega arith in
    let o : offset + 4 * 0 ≡ offset = omega arith in rw (e, o) first
join_steps src out k i offset first rest (suc j) h =
    let e : i + suc j ≡ i + 1 + j = omega arith in
    let o : offset + 4 * suc j ≡ offset + 4 + 4 * j = omega arith in
    rw (e, o) (rest j (omega arith))

-- The loop stores the numbers from `offset` on at the places from `i` on, and leaves those before `i`.
path_read_from_lem :
    (k : ℕ) (src : List ℕ) (in_len i offset : ℕ) (out : List ℕ)
    → offset + 4 * k ≤ in_len + 4
    → i + k ≤ length out
    → ((path_read_from k src in_len i offset out).0 ≡ true)
      × ((j : ℕ) → j < i → step (path_read_from k src in_len i offset out).1 j ≡ step out j)
      × ((j : ℕ)
          → j < k
          → step (path_read_from k src in_len i offset out).1 (i + j)
            ≡ read_u32_be src (offset + 4 * j))
unfolding path_read_from
path_read_from_lem zero src in_len i offset out fits room = (refl, λ j h. refl, λ j h. elim h [ ])
path_read_from_lem (suc k) src in_len i offset out fits room =
    let inside : ltb in_len offset ≡ false = ground arith in
    let out' = set out i (read_u32_be src offset) in
    let (ok, before, after) =
      path_read_from_lem k src in_len (i + 1) (offset + 4) out' (omega arith)
        (omega (arith, length-set out i (read_u32_be src offset))) in
    rw inside (
      ok,
      λ j h.
          before j (omega arith) ∙ get_or-set_ne out i j (read_u32_be src offset) 0 (omega arith),
      join_steps src (path_read_from k src in_len (i + 1) (offset + 4) out').1 k i offset
          (before i (omega arith) ∙ get_or-set_self out i (read_u32_be src offset) 0 (omega arith))
          after,
    )

-- With at most six steps, room for them in `out` and four bytes for each in the input,
-- `bip32_path_read` succeeds and stores the big-endian numbers in order.
pub bip32_path_read_lem :
    (k : ℕ) (src : List ℕ) (in_len : ℕ) (out : List ℕ)
    → k ≤ 6
    → 4 * k ≤ in_len
    → k ≤ length out
    → ((bip32_path_read src in_len out k).0 ≡ true)
      × ((j : ℕ) → j < k → step (bip32_path_read src in_len out k).1 j ≡ read_u32_be src (4 * j))
unfolding bip32_path_read
bip32_path_read_lem k src in_len out few fits room =
    let (ok, before, after) = path_read_from_lem k src in_len 0 0 out (omega arith) (omega arith) in
    let short : ltb max_bip32_path_steps k ≡ false = ground arith in
    rw short (
      ok,
      λ j h.
          let e : 0 + j ≡ j = omega arith in
          let o : 0 + 4 * j ≡ 4 * j = omega arith in rw (e, o) at (after j h),
    )

-- The loop gives up exactly if some step but the first starts beyond the input.
path_read_from-result :
    (k : ℕ) (src : List ℕ) (in_len i offset : ℕ) (out : List ℕ)
    → offset + 4 * k ≤ in_len + 4
    → (path_read_from k src in_len i offset out).0 ≡ true
unfolding path_read_from
path_read_from-result zero src in_len i offset out fits = refl
path_read_from-result (suc k) src in_len i offset out fits =
    let inside : ltb in_len offset ≡ false = ground arith in
    rw inside (
      path_read_from-result k src in_len (i + 1) (offset + 4) (set out i (read_u32_be src offset))
        (omega arith))

-- `bip32_path_read` also succeeds on an input that lacks up to four bytes of the last step: it checks
-- that the step starts within the input or at its end, and not that it ends there.
pub bip32_path_read-short :
    (k : ℕ) (src : List ℕ) (in_len : ℕ) (out : List ℕ)
    → 1 ≤ k
    → k ≤ 6
    → 4 * (k - 1) ≤ in_len
    → in_len < 4 * k
    → (bip32_path_read src in_len out k).0 ≡ true
unfolding bip32_path_read
bip32_path_read-short k src in_len out some few from short =
    let few' : ltb max_bip32_path_steps k ≡ false = ground arith in
    rw few' (path_read_from-result k src in_len 0 0 out (omega arith))
