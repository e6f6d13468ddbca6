-- ===== src/Script.antt =====
-- common/script.c: the types of output scripts, and the descriptions of OP_RETURN scripts.
pub mod Types
pub mod OpReturn
mod Tests
use app_bitcoin_new.Prelude.{
  ℕ, zero, suc, ◌+◌, ◌-◌, ◌/◌, ◌%◌, List, [], ◌∷◌, ◌++◌, Option, none, some, Bool, true, false, not,
  ◌||◌, ◌&&◌, get_or, ltb, leb, ◌==◌, if◌then◌else◌,
}
use app_bitcoin_new.Bytes.{at}

abbrev pub op_pushdata1 : ℕ
op_pushdata1 = 0x4c

abbrev pub op_pushdata2 : ℕ
op_pushdata2 = 0x4d

abbrev pub op_pushdata4 : ℕ
op_pushdata4 = 0x4e

abbrev pub op_1negate : ℕ
op_1negate = 0x4f

abbrev pub op_reserved : ℕ
op_reserved = 0x50

abbrev pub op_1 : ℕ
op_1 = 0x51

abbrev pub op_16 : ℕ
op_16 = 0x60

abbrev pub op_return : ℕ
op_return = 0x6a

-- The constants `SCRIPT_TYPE_...`
pub data ScriptType : Type 0 where
  p2pkh p2sh p2wpkh p2wsh p2tr unknown_segwit : ScriptType

-- `none` is the result -1.
unfoldable pub get_script_type : List ℕ → ℕ → Option ScriptType
get_script_type script script_len =
    if script_len == 25
      && at script 0 == 0x76
      && at script 1 == 0xa9
      && at script 2 == 0x14
      && at script 23 == 0x88
      && at script 24 == 0xac
    then some p2pkh
    else (if script_len == 23 && at script 0 == 0xa9 && at script 1 == 0x14 && at script 22 == 0x87
        then some p2sh
        else (if script_len == 22 && at script 0 == 0x00 && at script 1 == 0x14
            then some p2wpkh
            else (if script_len == 34 && at script 0 == 0x00 && at script 1 == 0x20
                then some p2wsh
                else (if script_len == 34 && at script 0 == op_1 && at script 1 == 0x20
                    then some p2tr
                    else (if leb 4 script_len
                          && leb script_len 42
                          && (at script 0 == 0
                              || (leb op_1 (at script 0) && leb (at script 0) op_16))
                          && script_len == 1 + 1 + at script 1
                        then some unknown_segwit
                        else none)))))

-- "OP_RETURN "
abbrev pub op_return_text : List ℕ
op_return_text = 79 ∷ 80 ∷ 95 ∷ 82 ∷ 69 ∷ 84 ∷ 85 ∷ 82 ∷ 78 ∷ 32 ∷ []

-- `hex`, "0123456789abcdef" with its terminator
abbrev pub hex : List ℕ
hex = 48 ∷ 49 ∷ 50 ∷ 51 ∷ 52 ∷ 53 ∷ 54 ∷ 55 ∷ 56 ∷ 57 ∷ 97 ∷ 98 ∷ 99 ∷ 100 ∷ 101 ∷ 102 ∷ 0 ∷ []

-- What the `for` loop appends, with `n` rounds left from `i` on.
unfoldable pub hex_loop : List ℕ → ℕ → ℕ → ℕ → List ℕ
hex_loop script hex_offset i zero = []
hex_loop script hex_offset i (suc n) =
    let data_byte = at script (hex_offset + i) in
    at hex (data_byte / 16) ∷ at hex (data_byte % 16) ∷ hex_loop script hex_offset (i + 1) n

-- The chain of cases on the push opcode: the characters that are appended, `hex_offset` and
-- `hex_length`; `none` is the result -1.
unfoldable pub describe_push : ℕ → List ℕ → ℕ → Option (List ℕ × ℕ × ℕ)
describe_push opcode script script_len =
    if opcode == 0
    then (if not (script_len == 1 + 1) then none else some (48 ∷ [], 1, 0))
    else (if leb 1 opcode && leb opcode 75
        then (if not (script_len == 1 + 1 + opcode) then none else some ([], 2, opcode))
        else (if opcode == op_pushdata1
            then (if not (script_len == 1 + 1 + 1 + at script 2) || ltb 80 (at script 2)
                then none
                else some ([], 3, at script 2))
            else (if opcode == op_1negate
                then (if not (script_len == 1 + 1) then none else some (45 ∷ 49 ∷ [], 1, 0))
                else (if leb op_1 opcode && leb opcode op_16
                    then (if not (script_len == 1 + 1)
                        then none
                        else (if leb 10 (opcode - 0x50)
                            then some (
                              (48 + (opcode - 0x50) / 10) ∷ (48 + (opcode - 0x50) % 10) ∷ [],
                              1,
                              0,
                            )
                            else some ((48 + (opcode - 0x50) % 10) ∷ [], 1, 0)))
                    else none))))

-- "0x" and the digits, if there are any
unfoldable pub hex_part : List ℕ → ℕ → ℕ → List ℕ
hex_part script hex_offset hex_length =
    let digits = hex_loop script hex_offset 0 hex_length in
    if ltb 0 hex_length then 48 ∷ 120 ∷ digits else []

-- The characters that are written to `out`, whose number is the result; `none` is the result -1.
unfoldable pub format_opscript_script : List ℕ → ℕ → Option (List ℕ)
format_opscript_script script script_len =
    if script_len == 0 || not (at script 0 == op_return)
    then none
    else let opcode = at script 1 in
      if ltb op_16 opcode
        || opcode == op_reserved
        || opcode == op_pushdata2
        || opcode == op_pushdata4
      then none
      else elim (describe_push opcode script script_len) [
        | none ↦ none
        | some (chars, hex_offset, hex_length) ↦
            some (op_return_text ++ (chars ++ (hex_part script hex_offset hex_length ++ (0 ∷ []))))
      ]
