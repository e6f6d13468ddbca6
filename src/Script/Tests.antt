-- ===== src/Script/Tests.antt =====
-- Runs of common/script.c, and the theorems on it at concrete scripts.
use app_bitcoin_new.Prelude.{
  ℕ, ◌+◌, ◌≤◌, ◌≡◌, ◌↔◌, refl, arith, List, [], ◌∷◌, ◌++◌, length, replicate, some, true,
}
use app_bitcoin_new.Script.{
  get_script_type, p2tr, format_opscript_script, describe_push, hex_part, hex_loop, op_return_text,
}
use app_bitcoin_new.Script.Types.{is_witness, WitnessProgram, get_script_type-is_witness_iff}
use app_bitcoin_new.Script.OpReturn.{
  max_opreturn_output_desc_size, push, to_hex, format_opscript_script_bounds,
  format_opscript_script-push,
}

abbrev taproot : List ℕ
taproot = 0x51 ∷ 0x20 ∷ replicate 32 7

taproot_type : get_script_type taproot 34 ≡ some p2tr
unfolding get_script_type
taproot_type = refl

get_script_type-is_witness_iff_example :
    (is_witness (get_script_type taproot 34) ≡ true) ↔ WitnessProgram taproot 34
get_script_type-is_witness_iff_example = get_script_type-is_witness_iff taproot 34

abbrev two_bytes : List ℕ
two_bytes = 0xc0 ∷ 0x1d ∷ []

-- "OP_RETURN 0xc01d"
abbrev described : List ℕ
described = op_return_text ++ (48 ∷ 120 ∷ 99 ∷ 48 ∷ 49 ∷ 100 ∷ 0 ∷ [])

describe : format_opscript_script (0x6a ∷ 2 ∷ two_bytes) 4 ≡ some described
unfolding format_opscript_script describe_push hex_part hex_loop
describe = refl

format_opscript_script_bounds_example : (length described ≤ max_opreturn_output_desc_size) × (2 ≤ 4)
format_opscript_script_bounds_example =
    format_opscript_script_bounds (0x6a ∷ 2 ∷ two_bytes) 4 described describe

format_opscript_script-push_example :
    format_opscript_script (0x6a ∷ push two_bytes) (1 + length (push two_bytes))
    ≡ some (op_return_text ++ (48 ∷ 120 ∷ (to_hex two_bytes ++ (0 ∷ []))))
format_opscript_script-push_example =
    format_opscript_script-push two_bytes (omega arith, (omega arith, tt)) (omega arith)
      (omega arith)
