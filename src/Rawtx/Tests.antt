-- ===== src/Rawtx/Tests.antt =====
-- Tests of the parser of raw transactions.
use app_bitcoin_new.Prelude.{
  ℕ, ◌≤◌, ◌≡◌, refl, sym, arith, List, [], ◌∷◌, ◌++◌, some, false, length, replicate,
}
use app_bitcoin_new.Buffer.{Buffer}
use app_bitcoin_new.Parser.{StepResult, complete}
use mathlib.Core.Path.{subst}
use app_bitcoin_new.Varint.{varint_write}
use app_bitcoin_new.Buffer.Stream.{all_remaining, take_bytes}
use app_bitcoin_new.Client.LeafHash.{varint_bytes}
use app_bitcoin_new.Parser.{next_step, run_from, parser_run, varint_len, bytes_or_same}
use app_bitcoin_new.Parser.Run.{Resumed, Returns}
use app_bitcoin_new.Parser.Varint.{take_varint}
use app_bitcoin_new.Rawtx.{
  read_step, varint_step, data_len, chunk_loop, chunks, on_part, as_bool, with_bool, counted,
  counted_rounds, hash_bytes,
}
use app_bitcoin_new.Rawtx.Inputs.{
  set_scriptsig_size, reset_scriptsig_counter, hash_chunk, scriptsig_part, set_scriptsig_part,
  parse_rawtxinput_txid, parse_rawtxinput_vout, parse_rawtxinput_scriptsig_size,
  parse_rawtxinput_scriptsig_init, scriptsig_loop, parse_rawtxinput_scriptsig,
  parse_rawtxinput_sequence,
}
use app_bitcoin_new.Rawtx.Outputs.{
  is_relevant, reset_scriptpubkey_counter, scriptpubkey_part, set_scriptpubkey_part, set_value,
  set_scriptpubkey_size, take_chunk, parse_rawtxoutput_value, parse_rawtxoutput_scriptpubkey_size,
  parse_rawtxoutput_scriptpubkey_init, scriptpubkey_loop, parse_rawtxoutput_scriptpubkey,
}
use app_bitcoin_new.Rawtx.Transaction.{
  update_hash, set_n_inputs, set_n_outputs, parser_init_context, init_inputs, init_outputs,
  init_witnesses, inputs_part, set_inputs_part, outputs_part, set_outputs_part, witnesses_part,
  set_witnesses_part, parse_rawtx_version, parse_rawtx_check_segwit, parse_rawtx_input_count,
  parse_rawtx_inputs_init, parse_inputs, parse_rawtx_inputs, parse_rawtx_output_count,
  parse_rawtx_outputs_init, parse_outputs, parse_rawtx_outputs, parse_rawtx_witnesses_init,
  parse_fields, parse_rawtx_witnesses, parse_rawtx_locktime,
}
use app_bitcoin_new.Rawtx.Returns.{parse_rawtx_steps-Returns}
use app_bitcoin_new.Rawtx.Whole.{parse_rawtx_steps-Resumes}
use app_bitcoin_new.Rawtx.Transaction.{RawtxState}
use app_bitcoin_new.Rawtx.Feed.{parse_all, FitsStore, IsAfter}
use app_bitcoin_new.Rawtx.Process.{process_parts}
use app_bitcoin_new.Rawtx.InParts.{first_state, AllFit, IsPart, process_parts-Represents}

abbrev pub state : RawtxState
state = record {
  hashed = [];
  is_segwit = false;
  n_inputs = 0;
  n_outputs = 0;
  in_counter = 0;
  input_parser_context = (0, record { scriptsig_size = 0; scriptsig_counter = 0 });
  out_counter = 0;
  output_parser_context = (0, record { scriptpubkey_size = 0; scriptpubkey_counter = 0 });
  wit_counter = 0;
  witness = record {
    is_read = false;
    size = 0;
    inner = (0, record { is_read = false; size = 0; inner = 0 });
  };
  parser_outputs = record {
    vout_value = 0;
    vout_scriptpubkey_len = 0;
    vout_scriptpubkey = replicate 34 0;
  };
}

-- A transaction with one input, whose script has a byte, and two outputs.
abbrev pub tx_front : List ℕ
tx_front = 2 ∷ 0 ∷ 0 ∷ 0 ∷ 1 ∷ replicate 32 7 ++ (1 ∷ 0 ∷ 0 ∷ 0 ∷ 1 ∷ 0x51 ∷ 0xff ∷ 0xff ∷ [])

abbrev pub tx_back : List ℕ
tx_back =
    0xff ∷ 0xff ∷ 2 ∷ 5 ∷ 0 ∷ 0 ∷ 0 ∷ 0 ∷ 0 ∷ 0 ∷ 0 ∷ 0 ∷ 9 ∷ 1 ∷ 0 ∷ 0 ∷ 0 ∷ 0 ∷ 0 ∷ 0 ∷ 2 ∷ 0x51
    ∷ 0x52 ∷ 0 ∷ 0 ∷ 0 ∷ 0 ∷ []

abbrev part : List ℕ → Buffer
part bytes = record { address = 1; ptr = bytes; size = length bytes; offset = 0 }

abbrev run : StepResult × (ℕ × RawtxState) × List ℕ
run = parse_all (some 1) (0, state) (tx_front ++ tx_back)

runs : parse_all (some 1) (0, state) (tx_front ++ tx_back) ≡ (complete, run.1, [])
unfolding parser_run run_from next_step read_step varint_step data_len chunk_loop chunks on_part
    as_bool with_bool counted counted_rounds hash_bytes take_bytes take_varint varint_len
    varint_bytes varint_write bytes_or_same set_scriptsig_size reset_scriptsig_counter hash_chunk
    scriptsig_part set_scriptsig_part parse_rawtxinput_txid parse_rawtxinput_vout
    parse_rawtxinput_scriptsig_size parse_rawtxinput_scriptsig_init scriptsig_loop
    parse_rawtxinput_scriptsig parse_rawtxinput_sequence is_relevant reset_scriptpubkey_counter
    scriptpubkey_part set_scriptpubkey_part set_value set_scriptpubkey_size take_chunk
    parse_rawtxoutput_value parse_rawtxoutput_scriptpubkey_size parse_rawtxoutput_scriptpubkey_init
    scriptpubkey_loop parse_rawtxoutput_scriptpubkey update_hash set_n_inputs set_n_outputs
    parser_init_context init_inputs init_outputs init_witnesses inputs_part set_inputs_part
    outputs_part set_outputs_part witnesses_part set_witnesses_part parse_rawtx_version
    parse_rawtx_check_segwit parse_rawtx_input_count parse_rawtx_inputs_init parse_inputs
    parse_rawtx_inputs parse_rawtx_output_count parse_rawtx_outputs_init parse_outputs
    parse_rawtx_outputs parse_rawtx_witnesses_init parse_fields parse_rawtx_witnesses
    parse_rawtx_locktime
runs = refl

front-FitsStore : FitsStore (parse_all (some 1) (0, state) tx_front)
unfolding FitsStore parser_run run_from next_step read_step varint_step data_len chunk_loop chunks
    on_part as_bool with_bool counted counted_rounds hash_bytes take_bytes take_varint varint_len
    varint_bytes varint_write bytes_or_same set_scriptsig_size reset_scriptsig_counter hash_chunk
    scriptsig_part set_scriptsig_part parse_rawtxinput_txid parse_rawtxinput_vout
    parse_rawtxinput_scriptsig_size parse_rawtxinput_scriptsig_init scriptsig_loop
    parse_rawtxinput_scriptsig parse_rawtxinput_sequence update_hash set_n_inputs
    parser_init_context init_inputs inputs_part set_inputs_part parse_rawtx_version
    parse_rawtx_check_segwit parse_rawtx_input_count parse_rawtx_inputs_init parse_inputs
    parse_rawtx_inputs
front-FitsStore = omega arith

fit : AllFit (some 1) (0, state) [] (part tx_front ∷ part tx_back ∷ [])
unfolding AllFit FitsStore
fit = (front-FitsStore, (subst FitsStore (sym runs) tt, tt))

part-IsPart : (bytes : List ℕ) → length bytes ≤ 100 → IsPart (part bytes)
part-IsPart bytes short =
    (record { within = omega arith; region = omega arith; small = omega arith }, omega arith)

process_parts-Represents_example :
    IsAfter
      (some 1)
      (parse_all (some 1) (0, state) (all_remaining (part tx_front ∷ part tx_back ∷ [])))
      (process_parts
        (some 1)
        (part tx_front ∷ part tx_back ∷ [])
        (first_state (replicate 32 0) state))
process_parts-Represents_example =
    process_parts-Represents (some 1) state (replicate 32 0) (part tx_front ∷ part tx_back ∷ [])
      refl (part-IsPart tx_front (omega arith), (part-IsPart tx_back (omega arith), tt)) fit

parse_rawtx_steps-Resumes_example :
    Resumed
      (parse_all (some 1))
      tx_back
      (parse_all (some 1) (0, state) tx_front)
      (parse_all (some 1) (0, state) (tx_front ++ tx_back))
parse_rawtx_steps-Resumes_example = parse_rawtx_steps-Resumes (some 1) (0, state) tx_front tx_back

parse_rawtx_steps-Returns_example : Returns (parse_all (some 1) (0, state) (tx_front ++ tx_back)).0
parse_rawtx_steps-Returns_example =
    parse_rawtx_steps-Returns (some 1) (0, state) (tx_front ++ tx_back)
