-- ===== src/Bip32/Standard.antt =====
-- What the checks of standard paths in common/bip32.c accept.
use app_bitcoin_new.Prelude.{
  ℕ, ◌+◌, ◌-◌, ◌^◌, ◌≤◌, ◌<◌, ◌≡◌, ◌↔◌, ◌⊎◌, inl, inr, refl, arith, List, [], ◌∷◌, true, false, not,
  ◌&&◌, length, ltb, ◌==◌, bit_xor, All,
}
use app_bitcoin_new.Prelude.Bits.{bit_xor_one_bit}
use app_bitcoin_new.Bip32.{
  step, first_hardened_child, is_coin_type_in, is_pubkey_path_standard, is_address_path_standard,
  ExpectedChange, receive, change, either, wrong, is_change_expected,
}

-- `x ^ H` hardens an index that is not hardened, and the other way round.
xor_hardened :
    (x : ℕ)
    → x < 2 ^ 32
    → ((x < first_hardened_child) × (bit_xor x first_hardened_child ≡ x + first_hardened_child))
      ⊎ ((first_hardened_child ≤ x) × (bit_xor x first_hardened_child ≡ x - first_hardened_child))
xor_hardened x h = ground (arith, bit_xor_one_bit 31 x)

-- Some expected type, hardened, is the given one.
abbrev pub SomeHardened : ℕ → List ℕ → Type 0
SomeHardened c [] = ⊥
SomeHardened c (x ∷ xs) = (c ≡ x + first_hardened_child) ⊎ SomeHardened c xs

abbrev pub IsPlainIndex : ℕ → Type 0
IsPlainIndex x = x < first_hardened_child

is_coin_type_in_iff :
    (c : ℕ) (xs : List ℕ) → All IsPlainIndex xs → (is_coin_type_in c xs ≡ true) ↔ SomeHardened c xs
unfolding is_coin_type_in
is_coin_type_in_iff c [] h = (λ e. cc, λ e. absurd e)
is_coin_type_in_iff c (x ∷ xs) (hx, h) = ground (arith, xor_hardened x, is_coin_type_in_iff c xs h)

-- The path m / purpose' / coin_type' or m / purpose' / coin_type' / account', with an account of at
-- most 100 and a coin type of the list, unless the list is empty.
pub record IsStandardPubkey (path : List ℕ) (n purpose : ℕ) (coins : List ℕ) : Type 0 where
  pub depth : (n ≡ 2) ⊎ (n ≡ 3)
  pub hardened_purpose : step path 0 ≡ purpose + first_hardened_child
  pub hardened_coin : first_hardened_child ≤ step path 1
  pub listed_coin : (coins ≡ []) ⊎ SomeHardened (step path 1) coins
  pub account :
      (n ≡ 2) ⊎ ((first_hardened_child ≤ step path 2) × (step path 2 ≤ first_hardened_child + 100))

listed :
    (c : ℕ) (xs : List ℕ)
    → All IsPlainIndex xs
    → ((ltb 0 (length xs) && not (is_coin_type_in c xs)) ≡ false) ↔ ((xs ≡ []) ⊎ SomeHardened c xs)
listed c [] h = (λ e. inl refl, λ e. refl)
listed c (x ∷ xs) h = (λ e. inr ((is_coin_type_in_iff c (x ∷ xs) h).0 (ground arith)), λ e. found e)
  where
    found :
        ((x ∷ xs ≡ []) ⊎ SomeHardened c (x ∷ xs))
        → (ltb 0 (length (x ∷ xs)) && not (is_coin_type_in c (x ∷ xs))) ≡ false
    found (inl e) = cc
    found (inr s) = let t = (is_coin_type_in_iff c (x ∷ xs) h).1 s in rw t (ground arith)

module _ (path : List ℕ) (n purpose : ℕ) (coins : List ℕ) (hp : IsPlainIndex purpose)
    (hc : All IsPlainIndex coins) (h2 : step path 2 < 2 ^ 32) where
  pub is_pubkey_path_standard_sound :
      is_pubkey_path_standard path n purpose coins ≡ true → IsStandardPubkey path n purpose coins
  unfolding is_pubkey_path_standard
  is_pubkey_path_standard_sound e = record {
    depth = ground arith;
    hardened_purpose = ground (arith, xor_hardened purpose);
    hardened_coin = ground arith;
    listed_coin = (listed (step path 1) coins hc).0 (ground arith);
    account = ground (arith, xor_hardened (step path 2));
  }

  pub is_pubkey_path_standard_complete :
      IsStandardPubkey path n purpose coins → is_pubkey_path_standard path n purpose coins ≡ true
  unfolding is_pubkey_path_standard
  is_pubkey_path_standard_complete s =
      let l = (listed (step path 1) coins hc).1 s.listed_coin in
      ground (arith, xor_hardened purpose, xor_hardened (step path 2), s.depth, s.account)

-- For an expected purpose and coin types that are not hardened, `is_pubkey_path_standard` accepts
-- exactly the standard paths of two or three steps.
pub is_pubkey_path_standard_iff :
    (path : List ℕ) (n purpose : ℕ) (coins : List ℕ)
    → IsPlainIndex purpose
    → All IsPlainIndex coins
    → step path 2 < 2 ^ 32
    → (is_pubkey_path_standard path n purpose coins ≡ true) ↔ IsStandardPubkey path n purpose coins
is_pubkey_path_standard_iff path n purpose coins hp hc h2 = (
  is_pubkey_path_standard_sound path n purpose coins hp hc h2,
  is_pubkey_path_standard_complete path n purpose coins hp hc h2,
)

abbrev pub MatchesChange : ExpectedChange → ℕ → Type 0
MatchesChange receive c = c ≡ 0
MatchesChange change c = c ≡ 1
MatchesChange either c = (c ≡ 0) ⊎ (c ≡ 1)
MatchesChange wrong c = ⊥

-- A standard path of an account, a change step as expected, and an address index of at most 50000.
pub record IsStandardAddress (path : List ℕ) (n purpose : ℕ) (coins : List ℕ)
    (expected : ExpectedChange) : Type 0 where
  pub depth : n ≡ 5
  pub of_account : IsStandardPubkey path 3 purpose coins
  pub as_expected : MatchesChange expected (step path 3)
  pub address_index : step path 4 ≤ 50000

expected_iff :
    (expected : ExpectedChange) (c : ℕ)
    → (((not (c == 0) && not (c == 1)) ≡ false) × (is_change_expected expected c ≡ true))
      ↔ MatchesChange expected c
unfolding is_change_expected
expected_iff receive c = ground arith
expected_iff change c = ground arith
expected_iff either c = ground arith
expected_iff wrong c = ground arith

-- For an expected purpose and coin types that are not hardened, `is_address_path_standard` accepts
-- exactly the standard paths of five steps: of an account that `is_pubkey_path_standard` accepts, with
-- the expected change step (0 or 1 if either is), and an address index of at most 50000.
pub is_address_path_standard_iff :
    (path : List ℕ) (n purpose : ℕ) (coins : List ℕ) (expected : ExpectedChange)
    → IsPlainIndex purpose
    → All IsPlainIndex coins
    → step path 2 < 2 ^ 32
    → (is_address_path_standard path n purpose coins expected ≡ true)
      ↔ IsStandardAddress path n purpose coins expected
unfolding is_address_path_standard
is_address_path_standard_iff path n purpose coins expected hp hc h2 = (
  λ e. record {
    depth = ground arith;
    of_account = is_pubkey_path_standard_sound path 3 purpose coins hp hc h2 (ground arith);
    as_expected = (expected_iff expected (step path 3)).0 (ground arith, ground arith);
    address_index = ground arith;
  },
  λ s.
      let account = is_pubkey_path_standard_complete path 3 purpose coins hp hc h2 s.of_account in
      let change = (expected_iff expected (step path 3)).1 s.as_expected in
      ground (arith, account, change, s.depth, s.address_index),
)
