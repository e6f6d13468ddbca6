-- ===== src/Client/Sorted.antt =====
-- handler/lib/check_merkle_tree_sorted.c: the keys of a map in order.
pub mod Increasing
pub mod Map
mod Tests
use app_bitcoin_new.Prelude.{
  ℕ, zero, suc, ◌+◌, ◌≤◌, ◌<◌, ◌≡◌, refl, sym, ap, ◌∙◌, arith, List, [], ◌∷◌, Bool, true, false,
  length, ltb, ◌==◌, if◌then◌else◌, Option, none, some, take, put_at, ◌%◌, ◌^◌, Bool-cases, inl,
  inr,
}
use app_bitcoin_new.Buffer.{Buffer, buffer_create}
use app_bitcoin_new.Client.{Context, Call, failed, done, ◌>>=◌}
use app_bitcoin_new.Client.Map.{fail_as}
use app_bitcoin_new.Client.Preimage.{call_get_merkle_leaf_element}
use app_bitcoin_new.Client.Stream.{after_callback}

-- The sign of an `int`.
pub data Compared : Type 0 where
  smaller same larger : Compared

-- `memcmp(a, b, n)` on bytes that are there
unfoldable pub memcmp : ℕ → List ℕ → List ℕ → Compared
memcmp zero a b = same
memcmp (suc n) [] b = same
memcmp (suc n) (x ∷ a) [] = same
memcmp (suc n) (x ∷ a) (y ∷ b) =
    let rest = memcmp n a b in if ltb x y then smaller else (if ltb y x then larger else rest)

-- One is a prefix of the other: the shorter one comes first.
unfoldable pub by_length : ℕ → ℕ → Compared
by_length array1_len array2_len =
    if ltb array1_len array2_len
    then smaller
    else (if ltb array2_len array1_len then larger else same)

unfoldable pub prefix_or : Compared → Compared → Compared
prefix_or same otherwise = otherwise
prefix_or smaller otherwise = smaller
prefix_or larger otherwise = larger

unfoldable pub compare_byte_arrays : List ℕ → ℕ → List ℕ → ℕ → Compared
compare_byte_arrays array1 array1_len array2 array2_len =
    let min_len = if ltb array1_len array2_len then array1_len else array2_len in
    if min_len == 0
    then by_length array1_len array2_len
    else prefix_or (memcmp min_len array1 array2) (by_length array1_len array2_len)

abbrev pub max_preimage_size : ℕ
max_preimage_size = 80

-- `compare_byte_arrays(...) >= 0`
unfoldable pub not_smaller : Compared → Bool
not_smaller smaller = false
not_smaller same = true
not_smaller larger = true

-- `callback.fn`, where `none` is NULL
unfoldable pub call_if_any :
    {State : Type 0} → Option (Buffer → State → Option State) → Buffer → State → Option State
call_if_any none buf state = some state
call_if_any (some callback) buf state = callback buf state

-- `cur_el` gives the array of each round, which is not initialised, and `address` its place.
module _ (sha256 : List ℕ → List ℕ) (root : List ℕ) (size : ℕ) (address : ℕ)
    (cur_el : ℕ → List ℕ) where
  unfoldable pub get_element : ℕ → Context → Call (ℕ × List ℕ)
  get_element cur_el_idx dc =
      call_get_merkle_leaf_element sha256 address (cur_el cur_el_idx) max_preimage_size root
        (size % 2 ^ 32) (cur_el_idx % 2 ^ 32) dc

  module _ {State : Type 0} (callback : Option (Buffer → State → Option State)) where
    -- The rounds of the `for` loop that are left, from `cur_el_idx` on.
    unfoldable pub sorted_rounds : ℕ → ℕ → List ℕ → ℕ → State → Context → Call State
    sorted_rounds zero cur_el_idx prev_el prev_el_len state dc = done state dc
    sorted_rounds (suc rounds) cur_el_idx prev_el prev_el_len state dc =
        fail_as 1 (get_element cur_el_idx dc) >>= λ got dc0.
        if (if ltb 0 cur_el_idx
          then not_smaller (compare_byte_arrays prev_el prev_el_len got.1 got.0)
          else false)
        then failed 1 dc0
        else after_callback (call_if_any callback (buffer_create address got.1 got.0) state)
            (λ state'.
              sorted_rounds rounds (suc cur_el_idx) (put_at prev_el 0 (take got.0 got.1)) got.0
                state' dc0)

    -- `prev_el` is not initialised.
    unfoldable pub call_check_merkle_tree_sorted_with_callback :
        List ℕ → State → Context → Call State
    call_check_merkle_tree_sorted_with_callback prev_el state dc =
        sorted_rounds size 0 prev_el 0 state dc

-- The lexicographic order of lists.
unfoldable pub lexicographic : List ℕ → List ℕ → Compared
lexicographic [] [] = same
lexicographic [] (y ∷ ys) = smaller
lexicographic (x ∷ xs) [] = larger
lexicographic (x ∷ xs) (y ∷ ys) =
    let rest = lexicographic xs ys in
    if ltb x y then smaller else (if ltb y x then larger else rest)

min_suc :
    (a b : ℕ) → (if ltb (suc a) (suc b) then suc a else suc b) ≡ suc (if ltb a b then a else b)
min_suc a b = ground arith

by_length-suc : (a b : ℕ) → by_length (suc a) (suc b) ≡ by_length a b
unfolding by_length
by_length-suc a b = ground arith

prefix_or-if :
    (c d : Bool) (rest otherwise : Compared)
    → prefix_or (if c then smaller else (if d then larger else rest)) otherwise
      ≡ (if c then smaller else (if d then larger else prefix_or rest otherwise))
unfolding prefix_or
prefix_or-if true d rest otherwise = refl
prefix_or-if false true rest otherwise = refl
prefix_or-if false false rest otherwise = refl

by_memcmp :
    (xs ys : List ℕ)
    → prefix_or
        (memcmp (if ltb (length xs) (length ys) then length xs else length ys) xs ys)
        (by_length (length xs) (length ys))
      ≡ lexicographic xs ys
unfolding lexicographic memcmp prefix_or by_length
by_memcmp [] [] = refl
by_memcmp [] (y ∷ ys) =
    let some_left : ltb 0 (suc (length ys)) ≡ true = ground arith in rw some_left refl
by_memcmp (x ∷ xs) [] =
    let none_left : ltb (suc (length xs)) 0 ≡ false = ground arith in
    let some_left : ltb 0 (suc (length xs)) ≡ true = ground arith in rw (none_left, some_left) refl
by_memcmp (x ∷ xs) (y ∷ ys) =
    let rest = memcmp (if ltb (length xs) (length ys) then length xs else length ys) xs ys in
    rw (min_suc (length xs) (length ys), by_length-suc (length xs) (length ys))
      (prefix_or-if (ltb x y) (ltb y x) rest (by_length (length xs) (length ys))
        ∙ ap (λ (r : Compared). if ltb x y then smaller else (if ltb y x then larger else r))
            (by_memcmp xs ys))

-- On two arrays and their lengths, `compare_byte_arrays` gives their lexicographic order.
pub compare_byte_arrays-lexicographic :
    (xs ys : List ℕ) → compare_byte_arrays xs (length xs) ys (length ys) ≡ lexicographic xs ys
unfolding compare_byte_arrays memcmp prefix_or
compare_byte_arrays-lexicographic xs ys =
    let min_len = if ltb (length xs) (length ys) then length xs else length ys in
    elim (Bool-cases (min_len == 0)) [
      | inr some_bytes ↦ rw some_bytes (by_memcmp xs ys)
      | inl no_bytes ↦
          let zero_len : min_len ≡ 0 = ground arith in
          rw no_bytes (
            sym (
              ap (λ (n : ℕ). prefix_or (memcmp n xs ys) (by_length (length xs) (length ys)))
                zero_len)
            ∙ by_memcmp xs ys)
    ]
