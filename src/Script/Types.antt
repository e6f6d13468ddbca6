-- ===== src/Script/Types.antt =====
-- `get_script_type` against the witness programs of BIP 141.
use app_bitcoin_new.Prelude.{
  ℕ, ◌+◌, ◌≤◌, ◌≡◌, ◌↔◌, ◌⊎◌, List, Option, none, some, Bool, true, false, arith,
}
use app_bitcoin_new.Bytes.{at}
use app_bitcoin_new.Script.{
  ScriptType, p2pkh, p2sh, p2wpkh, p2wsh, p2tr, unknown_segwit, get_script_type,
}

-- A version opcode, then a push of all that follows, of 2 to 40 bytes.
abbrev pub WitnessProgram : List ℕ → ℕ → Type 0
WitnessProgram script script_len =
    (4 ≤ script_len)
    × (script_len ≤ 42)
    × ((at script 0 ≡ 0) ⊎ ((0x51 ≤ at script 0) × (at script 0 ≤ 0x60)))
    × (script_len ≡ 2 + at script 1)

unfoldable pub is_witness : Option ScriptType → Bool
is_witness none = false
is_witness (some p2pkh) = false
is_witness (some p2sh) = false
is_witness (some p2wpkh) = true
is_witness (some p2wsh) = true
is_witness (some p2tr) = true
is_witness (some unknown_segwit) = true

-- `get_script_type` returns one of the segwit types exactly for a witness program: of 4 to 42 bytes, a version
-- opcode and a push of all that follows.
pub get_script_type-is_witness_iff :
    (script : List ℕ) (script_len : ℕ)
    → (is_witness (get_script_type script script_len) ≡ true) ↔ WitnessProgram script script_len
unfolding is_witness get_script_type
get_script_type-is_witness_iff script script_len = ground arith
