-- ===== src/Rawtx/Inputs.antt =====
-- handler/lib/psbt_parse_rawtx.c: the parser of an input.
use app_bitcoin_new.Prelude.{ℕ, ◌%◌, ◌^◌, List, [], ◌∷◌, ◌++◌, Bool, true, ◌==◌}
use app_bitcoin_new.Client.LeafHash.{varint_bytes}
use app_bitcoin_new.Parser.{ParsingStep}
use app_bitcoin_new.Rawtx.{Reader, read_step, varint_step, init_step, hash_bytes, on_part, chunks}

pub record InputState : Type 0 where
  pub scriptsig_size : ℕ
  pub scriptsig_counter : ℕ

-- What a step of an input changes: the bytes of the parent's hash, and the state.
abbrev pub InputParser : Type 0
InputParser = List ℕ × InputState

unfoldable pub set_scriptsig_size : ℕ → InputParser → InputParser
set_scriptsig_size size (hashed, state) =
    (hashed ++ varint_bytes size, record state { scriptsig_size = size % 2 ^ 32 })

unfoldable pub reset_scriptsig_counter : InputParser → InputParser
reset_scriptsig_counter (hashed, state) = (hashed, record state { scriptsig_counter = 0 })

unfoldable pub hash_chunk : ℕ → List ℕ → List ℕ → Bool × List ℕ
hash_chunk counter bytes hashed = (true, hashed ++ bytes)

-- What the loop over the script changes.
unfoldable pub scriptsig_part : InputParser → ℕ × List ℕ
scriptsig_part (hashed, state) = (state.scriptsig_counter, hashed)

unfoldable pub set_scriptsig_part : ℕ × List ℕ → InputParser → InputParser
set_scriptsig_part (counter, hashed) (_, state) =
    (hashed, record state { scriptsig_counter = counter })

module _ {S : Type 0} (R : Reader S) where
  unfoldable pub parse_rawtxinput_txid : ParsingStep InputParser S
  parse_rawtxinput_txid = read_step R 32 hash_bytes

  unfoldable pub parse_rawtxinput_vout : ParsingStep InputParser S
  parse_rawtxinput_vout = read_step R 4 hash_bytes

  unfoldable pub parse_rawtxinput_scriptsig_size : ParsingStep InputParser S
  parse_rawtxinput_scriptsig_size = varint_step R set_scriptsig_size

  unfoldable pub parse_rawtxinput_scriptsig_init : ParsingStep InputParser S
  parse_rawtxinput_scriptsig_init = init_step reset_scriptsig_counter

  -- `scriptsig_size` has 32 bits.
  unfoldable pub scriptsig_loop : InputParser → ParsingStep (ℕ × List ℕ) S
  scriptsig_loop (_, state) =
      chunks R hash_chunk (state.scriptsig_size % 2 ^ 32)
        (λ counter. counter == state.scriptsig_size % 2 ^ 32)

  unfoldable pub parse_rawtxinput_scriptsig : ParsingStep InputParser S
  parse_rawtxinput_scriptsig = on_part scriptsig_part set_scriptsig_part scriptsig_loop

  unfoldable pub parse_rawtxinput_sequence : ParsingStep InputParser S
  parse_rawtxinput_sequence = read_step R 4 hash_bytes

  abbrev pub parse_rawtxinput_steps : List (ParsingStep InputParser S)
  parse_rawtxinput_steps =
      parse_rawtxinput_txid ∷ parse_rawtxinput_vout ∷ parse_rawtxinput_scriptsig_size
      ∷ parse_rawtxinput_scriptsig_init ∷ parse_rawtxinput_scriptsig ∷ parse_rawtxinput_sequence
      ∷ []
