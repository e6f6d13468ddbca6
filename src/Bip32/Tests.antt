-- ===== src/Bip32/Tests.antt =====
-- The theorems on common/bip32.c at concrete paths.
use app_bitcoin_new.Prelude.{ℕ, ◌*◌, ◌≡◌, ◌<◌, ◌↔◌, refl, arith, List, [], ◌∷◌, true, replicate}
use app_bitcoin_new.Bytes.{read_u32_be}
use app_bitcoin_new.Bip32.{
  step, bip32_path_read, is_pubkey_path_standard, is_address_path_standard, either, is_coin_type_in,
  is_change_expected,
}
use app_bitcoin_new.Bip32.Standard.{
  IsStandardPubkey, IsStandardAddress, is_pubkey_path_standard_iff, is_address_path_standard_iff,
}
use app_bitcoin_new.Bip32.Read.{bip32_path_read_lem}

-- m / 84' / 0' / 0' / 1 / 7
abbrev native_segwit : List ℕ
native_segwit = 0x8000_0054 ∷ 0x8000_0000 ∷ 0x8000_0000 ∷ 1 ∷ 7 ∷ []

accepted : is_address_path_standard native_segwit 5 84 (0 ∷ []) either ≡ true
unfolding is_address_path_standard is_pubkey_path_standard is_coin_type_in is_change_expected
accepted = refl

is_pubkey_path_standard_iff_example :
    (is_pubkey_path_standard native_segwit 3 84 (0 ∷ []) ≡ true)
    ↔ IsStandardPubkey native_segwit 3 84 (0 ∷ [])
is_pubkey_path_standard_iff_example =
    is_pubkey_path_standard_iff native_segwit 3 84 (0 ∷ []) (omega arith) (omega arith)
      (omega arith)

is_address_path_standard_iff_example :
    (is_address_path_standard native_segwit 5 84 (0 ∷ []) either ≡ true)
    ↔ IsStandardAddress native_segwit 5 84 (0 ∷ []) either
is_address_path_standard_iff_example =
    is_address_path_standard_iff native_segwit 5 84 (0 ∷ []) either (omega arith) (omega arith)
      (omega arith)

abbrev two_steps : List ℕ
two_steps = 0x80 ∷ 0 ∷ 0 ∷ 84 ∷ 0x80 ∷ 0 ∷ 0 ∷ 1 ∷ []

bip32_path_read_lem_example :
    ((bip32_path_read two_steps 8 (replicate 6 0) 2).0 ≡ true)
    × ((j : ℕ)
        → j < 2
        → step (bip32_path_read two_steps 8 (replicate 6 0) 2).1 j ≡ read_u32_be two_steps (4 * j))
bip32_path_read_lem_example =
    bip32_path_read_lem 2 two_steps 8 (replicate 6 0) (omega arith) (omega arith) (omega arith)
