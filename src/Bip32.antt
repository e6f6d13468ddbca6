-- ===== src/Bip32.antt =====
-- common/bip32.c and common/bip32.h: derivation paths from bytes, and the checks of
-- standard paths.
pub mod Standard
pub mod Read
mod Tests
use app_bitcoin_new.Prelude.{
  ℕ, zero, suc, ◌+◌, ◌-◌, ◌*◌, ◌/◌, ◌%◌, ◌^◌, List, [], ◌∷◌, ◌++◌, Bool, true, false, not, ◌&&◌,
  ◌||◌, Option, none, some, length, get_or, set, put_at, replicate, drop, ltb, leb, ◌==◌,
  if◌then◌else◌, bit_and, bit_xor,
}
use app_bitcoin_new.Bytes.{at, read_u32_be}

abbrev pub max_bip32_path_steps : ℕ
max_bip32_path_steps = 6

-- BIP32_FIRST_HARDENED_CHILD, the `H` of bip32.c
abbrev pub first_hardened_child : ℕ
first_hardened_child = 0x8000_0000

abbrev pub max_bip44_account_recommended : ℕ
max_bip44_account_recommended = 100

abbrev pub max_bip44_address_index_recommended : ℕ
max_bip44_address_index_recommended = 50000

-- The loop of `bip32_path_read` over the `steps` that are left, from step `i` and `offset` on.
unfoldable pub path_read_from : ℕ → List ℕ → ℕ → ℕ → ℕ → List ℕ → Bool × List ℕ
path_read_from zero src in_len i offset out = (true, out)
path_read_from (suc steps) src in_len i offset out =
    if ltb in_len offset
    then (false, out)
    else path_read_from steps src in_len (i + 1) (offset + 4) (set out i (read_u32_be src offset))

-- The result, and the array `out` as it is left.
unfoldable pub bip32_path_read : List ℕ → ℕ → List ℕ → ℕ → Bool × List ℕ
bip32_path_read src in_len out out_len =
    if ltb max_bip32_path_steps out_len
    then (false, out)
    else path_read_from out_len src in_len 0 0 out

-- `bip32_path[i]`
abbrev pub step : List ℕ → ℕ → ℕ
step path i = get_or path i 0

-- Whether `coin_type` is one of the expected types, hardened.
unfoldable pub is_coin_type_in : ℕ → List ℕ → Bool
is_coin_type_in coin_type [] = false
is_coin_type_in coin_type (c ∷ cs) =
    let rest = is_coin_type_in coin_type cs in
    if coin_type == bit_xor c first_hardened_child then true else rest

unfoldable pub is_pubkey_path_standard : List ℕ → ℕ → ℕ → List ℕ → Bool
is_pubkey_path_standard path path_len expected_purpose expected_coin_types =
    if ltb path_len 2 || ltb 3 path_len
    then false
    else (if not (step path 0 == bit_xor expected_purpose first_hardened_child)
        then false
        else (if ltb (step path 1) first_hardened_child
            then false
            else (if ltb 0 (length expected_coin_types)
                  && not (is_coin_type_in (step path 1) expected_coin_types)
                then false
                else (if path_len == 2
                    then true
                    else (if ltb max_bip44_account_recommended
                          (bit_xor (step path 2) first_hardened_child)
                        then false
                        else true)))))

-- The parameter `int expected_change`: 0, 1, -1 for either, or any other value.
pub data ExpectedChange : Type 0 where
  receive change either wrong : ExpectedChange

unfoldable pub is_change_expected : ExpectedChange → ℕ → Bool
is_change_expected receive c = c == 0
is_change_expected change c = c == 1
is_change_expected either c = true
is_change_expected wrong c = false

unfoldable pub is_address_path_standard : List ℕ → ℕ → ℕ → List ℕ → ExpectedChange → Bool
is_address_path_standard path path_len expected_purpose expected_coin_types expected_change =
    if not (path_len == 5)
    then false
    else (if not (is_pubkey_path_standard path 3 expected_purpose expected_coin_types)
        then false
        else (if not (step path 3 == 0) && not (step path 3 == 1)
            then false
            else (if not (is_change_expected expected_change (step path 3))
                then false
                else (if ltb max_bip44_address_index_recommended (step path 4)
                    then false
                    else true))))

-- ADDRESS_TYPE_LEGACY is 1, _WIT 2, _SH_WIT 3 and _TR 4; `none` is the result -1.
unfoldable pub get_bip44_purpose : ℕ → Option ℕ
get_bip44_purpose address_type =
    if address_type == 1
    then some 44
    else (if address_type == 2
        then some 84
        else (if address_type == 3 then some 49 else (if address_type == 4 then some 86 else none)))
