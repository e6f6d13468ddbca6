-- ===== src/Client/Sorted/Increasing.antt =====
-- What a success of `call_check_merkle_tree_sorted_with_callback` says of the keys.
use app_bitcoin_new.Prelude.{
  ℕ, zero, suc, ◌+◌, ◌%◌, ◌^◌, ◌≤◌, ◌≡◌, refl, sym, ap, ◌∙◌, arith, List, [], ◌∷◌, true, false,
  length, length-take, length-put_at, take, take-put_at, put_at, Option, none, some, ltb, ◌==◌,
  if◌then◌else◌,
}
use mathlib.Core.Path.{subst}
use app_bitcoin_new.Buffer.{Buffer, buffer_create}
use app_bitcoin_new.Client.{Context, done, >>=-eq-done}
use app_bitcoin_new.Client.Map.{fail_as}
use app_bitcoin_new.Client.Map.Lookup.{fail_as-eq-done}
use app_bitcoin_new.Client.Preimage.Length.{call_get_merkle_leaf_element-fits, passed}
use app_bitcoin_new.Client.Stream.Rounds.{after_callback-eq-done}
use app_bitcoin_new.Client.Sorted.{
  Compared, smaller, same, larger, memcmp, by_length, prefix_or, compare_byte_arrays, lexicographic,
  compare_byte_arrays-lexicographic, max_preimage_size, not_smaller, call_if_any, get_element,
  sorted_rounds, call_check_merkle_tree_sorted_with_callback,
}

memcmp-take :
    (n a b : ℕ) (xs ys : List ℕ) → n ≤ a → n ≤ b → memcmp n (take a xs) (take b ys) ≡ memcmp n xs ys
unfolding memcmp
memcmp-take zero a b xs ys ha hb = refl
memcmp-take (suc n) zero b xs ys ha hb = absurd (omega arith)
memcmp-take (suc n) (suc a) zero xs ys ha hb = absurd (omega arith)
memcmp-take (suc n) (suc a) (suc b) [] ys ha hb = refl
memcmp-take (suc n) (suc a) (suc b) (x ∷ xs) [] ha hb = refl
memcmp-take (suc n) (suc a) (suc b) (x ∷ xs) (y ∷ ys) ha hb =
    ap (λ (r : Compared). if ltb x y then smaller else (if ltb y x then larger else r))
      (memcmp-take n a b xs ys (omega arith) (omega arith))

-- On the front parts of two arrays.
compare_byte_arrays-front :
    (xs ys : List ℕ) (a b : ℕ)
    → a ≤ length xs
    → b ≤ length ys
    → compare_byte_arrays xs a ys b ≡ lexicographic (take a xs) (take b ys)
unfolding compare_byte_arrays
compare_byte_arrays-front xs ys a b ha hb =
    let la : length (take a xs) ≡ a = omega (arith, length-take {0} a xs) in
    let lb : length (take b ys) ≡ b = omega (arith, length-take {0} b ys) in
    let m = if ltb a b then a else b in
    let whole = compare_byte_arrays-lexicographic (take a xs) (take b ys) in
    ap (λ (c : Compared). if m == 0 then by_length a b else prefix_or c (by_length a b))
      (sym (memcmp-take m a b xs ys (ground arith) (ground arith)))
    ∙ rw (la, lb) at whole

-- In order, behind an element that came before them, if any.
unfoldable pub Increasing : Option (List ℕ) → List (List ℕ) → Type 0
Increasing before [] = Unit {0}
Increasing none (e ∷ es) = Increasing (some e) es
Increasing (some p) (e ∷ es) = (lexicographic p e ≡ smaller) × Increasing (some e) es

not_smaller-false : (c : Compared) → not_smaller c ≡ false → c ≡ smaller
unfolding not_smaller
not_smaller-false smaller e = refl
not_smaller-false same e = cc
not_smaller-false larger e = cc

-- The element of the round before.
before : ℕ → List ℕ → ℕ → Option (List ℕ)
before zero prev_el prev_el_len = none
before (suc index) prev_el prev_el_len = some (take prev_el_len prev_el)

in_order :
    (index : ℕ) (prev_el cur : List ℕ) (prev_el_len n : ℕ) (es : List (List ℕ))
    → prev_el_len ≤ length prev_el
    → n ≤ length cur
    → (if ltb 0 index then not_smaller (compare_byte_arrays prev_el prev_el_len cur n) else false)
      ≡ false
    → Increasing (some (take n cur)) es
    → Increasing (before index prev_el prev_el_len) (take n cur ∷ es)
unfolding Increasing before
in_order zero prev_el cur prev_el_len n es hp hn e h = h
in_order (suc index) prev_el cur prev_el_len n es hp hn e h =
    let later : ltb 0 (suc index) ≡ true = ground arith in
    let e' : not_smaller (compare_byte_arrays prev_el prev_el_len cur n) ≡ false = rw later at e in
    (sym (compare_byte_arrays-front prev_el cur prev_el_len n hp hn) ∙ not_smaller-false _ e', h)

module _ (sha256 : List ℕ → List ℕ) (root : List ℕ) (size : ℕ) (address : ℕ)
    (cur_el : ℕ → List ℕ) where
  element_fits :
      (index : ℕ) (dc : Context) (n : ℕ) (array : List ℕ) (dc' : Context)
      → length (cur_el index) ≡ max_preimage_size
      → get_element sha256 root size address cur_el index dc ≡ done (n, array) dc'
      → (n ≤ max_preimage_size) × (length array ≡ max_preimage_size)
  unfolding get_element
  element_fits index dc n array dc' room e =
      let (fits, len) =
        call_get_merkle_leaf_element-fits sha256 address (cur_el index) max_preimage_size root
          (size % 2 ^ 32) (index % 2 ^ 32) dc n array dc' (omega arith) (omega arith) e in
      (fits, len ∙ room)

  module _ {State : Type 0} (callback : Option (Buffer → State → Option State)) where
    -- These are the elements of the rounds from `index` on: each was got for the leaf at its
    -- index in the context that the round before left, and the callback took each in turn. The
    -- rounds lead from one state and context to the other.
    unfoldable pub Run : ℕ → List (List ℕ) → State → Context → State → Context → Type 0
    Run index [] state dc state' dc' = (state ≡ state') × (dc ≡ dc')
    Run index (e ∷ es) state dc state' dc' =
        (array : List ℕ) × (dc0 : Context) × (state0 : State) × (get_element sha256 root size
            address cur_el index dc
          ≡ done (length e, array) dc0)
        × (take (length e) array ≡ e)
        × (call_if_any callback (buffer_create address array (length e)) state ≡ some state0)
        × Run (suc index) es state0 dc0 state' dc'

    Checked : ℕ → ℕ → List ℕ → ℕ → State → Context → State → Context → Type 0
    Checked rounds index prev_el prev_el_len state dc state' dc' =
        (elements : List (List ℕ)) × (length elements ≡ rounds)
        × Run index elements state dc state' dc'
        × Increasing (before index prev_el prev_el_len) elements

    Checked-cons :
        (rounds index n : ℕ) (prev_el array : List ℕ) (prev_el_len : ℕ) (dc dc0 : Context)
        (state state0 state' : State) (dc' : Context)
        → length prev_el ≡ max_preimage_size
        → prev_el_len ≤ max_preimage_size
        → n ≤ max_preimage_size
        → length array ≡ max_preimage_size
        → get_element sha256 root size address cur_el index dc ≡ done (n, array) dc0
        → call_if_any callback (buffer_create address array n) state ≡ some state0
        → (if ltb 0 index
            then not_smaller (compare_byte_arrays prev_el prev_el_len array n)
            else false)
          ≡ false
        → Checked rounds (suc index) (put_at prev_el 0 (take n array)) n state0 dc0 state' dc'
        → Checked (suc rounds) index prev_el prev_el_len state dc state' dc'
    unfolding Checked Run before
    Checked-cons rounds index n prev_el array prev_el_len dc dc0 state state0 state' dc' room le
          fits len found called ordered (es, count, run, inc) =
        let cur = take n array in
        let l : length cur ≡ n = omega (arith, length-take {0} n array) in
        let copied : take n (put_at prev_el 0 cur) ≡ cur =
          let front = take-put_at prev_el 0 cur (omega arith) in
          let e : 0 + length cur ≡ n = omega arith in rw e at front in
        let found' : get_element sha256 root size address cur_el index dc
            ≡ done (length cur, array) dc0 =
          found ∙ ap (λ (m : ℕ). done (m, array) dc0) (sym l) in
        let called' : call_if_any callback (buffer_create address array (length cur)) state
            ≡ some state0 =
          ap (λ (m : ℕ). call_if_any callback (buffer_create address array m) state) l ∙ called in
        (
          cur ∷ es,
          ap suc count,
          (array, dc0, state0, found', ap (λ (m : ℕ). take m array) l, called', run),
          in_order index prev_el array prev_el_len n es (omega arith) (omega arith) ordered
              (subst (λ (p : List ℕ). Increasing (some p) es) copied inc),
        )

    sorted_rounds-Checked :
        (rounds index : ℕ) (prev_el : List ℕ) (prev_el_len : ℕ) (state : State) (dc : Context)
        (state' : State) (dc' : Context)
        → ((i : ℕ) → length (cur_el i) ≡ max_preimage_size)
        → length prev_el ≡ max_preimage_size
        → prev_el_len ≤ max_preimage_size
        → sorted_rounds sha256 root size address cur_el callback rounds index prev_el prev_el_len
            state dc
          ≡ done state' dc'
        → Checked rounds index prev_el prev_el_len state dc state' dc'
    unfolding sorted_rounds Checked Run Increasing
    sorted_rounds-Checked zero index prev_el prev_el_len state dc state' dc' arrays room le e =
        ([], refl, ground arith, tt)
    sorted_rounds-Checked (suc rounds) index prev_el prev_el_len state dc state' dc' arrays room le
          e =
        let get = get_element sha256 root size address cur_el index dc in
        let (got, dc0, e0, e1) = >>=-eq-done (fail_as 1 get) _ e in
        let found = fail_as-eq-done 1 get got dc0 e0 in
        let (ordered, e2) = passed _ 1 dc0 _ e1 in
        let (state1, called, e3) =
          after_callback-eq-done (call_if_any callback (buffer_create address got.1 got.0) state) _
            e2 in
        let (fits, len) = element_fits index dc got.0 got.1 dc0 (arrays index) found in
        Checked-cons rounds index got.0 prev_el got.1 prev_el_len dc dc0 state state1 state' dc'
          room le fits len found called ordered
          (sorted_rounds-Checked rounds (suc index) (put_at prev_el 0 (take got.0 got.1)) got.0
            state1 dc0 state' dc' arrays (length-put_at prev_el 0 (take got.0 got.1) ∙ room) fits
            e3)

    -- Where the arrays of the loop have their 80 bytes: if
    -- `call_check_merkle_tree_sorted_with_callback` succeeds, then the elements that
    -- `call_get_merkle_leaf_element` got in this run, one for each leaf of the tree in the order of the
    -- leaves, increase strictly in lexicographic order. Each was got in the context that the one
    -- before left, from the context of the call to that of its result, and the callback, if there is
    -- one, took each in turn, from the state of the call to that of its result.
    pub call_check_merkle_tree_sorted-Increasing :
        (prev_el : List ℕ) (state : State) (dc : Context) (state' : State) (dc' : Context)
        → ((i : ℕ) → length (cur_el i) ≡ max_preimage_size)
        → length prev_el ≡ max_preimage_size
        → call_check_merkle_tree_sorted_with_callback sha256 root size address cur_el callback
            prev_el state dc
          ≡ done state' dc'
        → (elements : List (List ℕ)) × (length elements ≡ size)
          × Run 0 elements state dc state' dc'
          × Increasing none elements
    unfolding call_check_merkle_tree_sorted_with_callback Checked before
    call_check_merkle_tree_sorted-Increasing prev_el state dc state' dc' arrays room e =
        sorted_rounds-Checked size 0 prev_el 0 state dc state' dc' arrays room (omega arith) e
