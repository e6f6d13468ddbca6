-- ===== src/Rawtx/Outputs.antt =====
-- handler/lib/psbt_parse_rawtx.c: the parser of an output.
use app_bitcoin_new.Prelude.{
  ℕ, ◌%◌, ◌^◌, List, [], ◌∷◌, ◌++◌, Option, none, some, Bool, true, false, ltb, ◌==◌, if◌then◌else◌,
  put_at,
}
use app_bitcoin_new.Bytes.{read_u64_le}
use app_bitcoin_new.Client.LeafHash.{varint_bytes}
use app_bitcoin_new.Parser.{ParsingStep}
use app_bitcoin_new.Rawtx.{Reader, read_step, varint_step, init_step, on_part, chunks}

abbrev pub max_prevout_scriptpubkey_len : ℕ
max_prevout_scriptpubkey_len = 34

-- `txid_parser_outputs_t`, less the transaction's id, which the last call sets.
pub record TxidOutputs : Type 0 where
  pub vout_value : ℕ
  pub vout_scriptpubkey_len : ℕ
  pub vout_scriptpubkey : List ℕ

pub record OutputState : Type 0 where
  pub scriptpubkey_size : ℕ
  pub scriptpubkey_counter : ℕ

-- What a step of an output changes: the bytes of the parent's hash, the outputs of the call, the state.
abbrev pub OutputParser : Type 0
OutputParser = List ℕ × TxidOutputs × OutputState

-- Whether the parent's output is the one that was asked for; `none` is the index -1.
unfoldable pub is_relevant : Option ℕ → ℕ → Bool
is_relevant none out_counter = false
is_relevant (some relevant_output_index) out_counter = out_counter == relevant_output_index

unfoldable pub reset_scriptpubkey_counter : OutputParser → OutputParser
reset_scriptpubkey_counter (hashed, outputs, state) =
    (hashed, outputs, record state { scriptpubkey_counter = 0 })

-- What the loop over the script changes.
unfoldable pub scriptpubkey_part : OutputParser → ℕ × (List ℕ × TxidOutputs)
scriptpubkey_part (hashed, outputs, state) = (state.scriptpubkey_counter, (hashed, outputs))

unfoldable pub set_scriptpubkey_part : ℕ × (List ℕ × TxidOutputs) → OutputParser → OutputParser
set_scriptpubkey_part (counter, (hashed, outputs)) (_, _, state) =
    (hashed, outputs, record state { scriptpubkey_counter = counter })

module _ (output_index : Option ℕ) (out_counter : ℕ) where
  unfoldable pub set_value : List ℕ → OutputParser → OutputParser
  set_value value_bytes (hashed, outputs, state) = (
    hashed ++ value_bytes,
    (if is_relevant output_index out_counter
        then record outputs { vout_value = read_u64_le value_bytes 0 }
        else outputs),
    state,
  )

  unfoldable pub set_scriptpubkey_size : ℕ → OutputParser → OutputParser
  set_scriptpubkey_size size (hashed, outputs, state) = (
    hashed ++ varint_bytes size,
    (if is_relevant output_index out_counter
        then record outputs { vout_scriptpubkey_len = size % 2 ^ 32 }
        else outputs),
    record state { scriptpubkey_size = size % 2 ^ 32 },
  )

  -- The chunk is hashed, and copied if it is of the output that was asked for; `false` is the result -1.
  unfoldable pub take_chunk : ℕ → List ℕ → List ℕ × TxidOutputs → Bool × (List ℕ × TxidOutputs)
  take_chunk counter bytes (hashed, outputs) =
      if is_relevant output_index out_counter
      then (if ltb max_prevout_scriptpubkey_len outputs.vout_scriptpubkey_len
          then (false, (hashed ++ bytes, outputs))
          else (
            true,
            (
              hashed ++ bytes,
              record outputs { vout_scriptpubkey = put_at outputs.vout_scriptpubkey counter bytes },
            ),
          ))
      else (true, (hashed ++ bytes, outputs))

  module _ {S : Type 0} (R : Reader S) where
    unfoldable pub parse_rawtxoutput_value : ParsingStep OutputParser S
    parse_rawtxoutput_value = read_step R 8 set_value

    unfoldable pub parse_rawtxoutput_scriptpubkey_size : ParsingStep OutputParser S
    parse_rawtxoutput_scriptpubkey_size = varint_step R set_scriptpubkey_size

    unfoldable pub parse_rawtxoutput_scriptpubkey_init : ParsingStep OutputParser S
    parse_rawtxoutput_scriptpubkey_init = init_step reset_scriptpubkey_counter

    -- `scriptpubkey_size` has 32 bits.
    unfoldable pub scriptpubkey_loop : OutputParser → ParsingStep (ℕ × (List ℕ × TxidOutputs)) S
    scriptpubkey_loop (_, _, state) =
        chunks R take_chunk (state.scriptpubkey_size % 2 ^ 32)
          (λ counter. counter == state.scriptpubkey_size % 2 ^ 32)

    unfoldable pub parse_rawtxoutput_scriptpubkey : ParsingStep OutputParser S
    parse_rawtxoutput_scriptpubkey =
        on_part scriptpubkey_part set_scriptpubkey_part scriptpubkey_loop

    abbrev pub parse_rawtxoutput_steps : List (ParsingStep OutputParser S)
    parse_rawtxoutput_steps =
        parse_rawtxoutput_value ∷ parse_rawtxoutput_scriptpubkey_size
        ∷ parse_rawtxoutput_scriptpubkey_init ∷ parse_rawtxoutput_scriptpubkey ∷ []
