-- ===== src/Rawtx/Transaction.antt =====
-- handler/lib/psbt_parse_rawtx.c: the parser of a whole transaction.
use app_bitcoin_new.Prelude.{
  ℕ, ◌%◌, ◌^◌, List, [], ◌∷◌, ◌++◌, Option, Bool, true, false, not, ◌==◌, if◌then◌else◌,
}
use app_bitcoin_new.Bytes.{at}
use app_bitcoin_new.Client.LeafHash.{varint_bytes}
use app_bitcoin_new.Parser.{error, need_more, complete, ParsingStep, bytes_or_same, parser_run}
use app_bitcoin_new.Rawtx.{Reader, read_step, varint_step, init_step, on_part, with_bool, counted}
use app_bitcoin_new.Rawtx.Inputs.{InputState, InputParser, parse_rawtxinput_steps}
use app_bitcoin_new.Rawtx.Outputs.{TxidOutputs, OutputState, OutputParser, parse_rawtxoutput_steps}
use app_bitcoin_new.Rawtx.Witnesses.{WitnessField, parse_witness_fields}

-- `parse_rawtx_state_t`. The members of its union are fields of their own: each stage sets what it reads.
-- The contexts are the step and the state of the parsers of an input and of an output.
pub record RawtxState : Type 0 where
  pub hashed : List ℕ
  pub is_segwit : Bool
  pub n_inputs : ℕ
  pub n_outputs : ℕ
  pub in_counter : ℕ
  pub input_parser_context : ℕ × InputState
  pub out_counter : ℕ
  pub output_parser_context : ℕ × OutputState
  pub wit_counter : ℕ
  pub witness : WitnessField
  pub parser_outputs : TxidOutputs

unfoldable pub update_hash : List ℕ → RawtxState → RawtxState
update_hash bytes state = record state { hashed = state.hashed ++ bytes }

unfoldable pub set_n_inputs : ℕ → RawtxState → RawtxState
set_n_inputs n state = record state {
  n_inputs = n % 2 ^ 32;
  hashed = state.hashed ++ varint_bytes n;
}

unfoldable pub set_n_outputs : ℕ → RawtxState → RawtxState
set_n_outputs n state = record state {
  n_outputs = n % 2 ^ 32;
  hashed = state.hashed ++ varint_bytes n;
}

-- `parser_init_context`
unfoldable pub parser_init_context : {A : Type 0} → ℕ × A → ℕ × A
parser_init_context (cur_step, state) = (0, state)

unfoldable pub init_inputs : RawtxState → RawtxState
init_inputs state = record state {
  in_counter = 0;
  input_parser_context = parser_init_context state.input_parser_context;
}

unfoldable pub init_outputs : RawtxState → RawtxState
init_outputs state = record state {
  out_counter = 0;
  output_parser_context = parser_init_context state.output_parser_context;
}

unfoldable pub init_witnesses : RawtxState → RawtxState
init_witnesses state = record state {
  wit_counter = 0;
  witness = record state.witness { is_read = false };
}

-- What the loop over the inputs changes.
unfoldable pub inputs_part : RawtxState → ℕ × (ℕ × InputParser)
inputs_part state =
    (state.in_counter, (state.input_parser_context.0, (state.hashed, state.input_parser_context.1)))

unfoldable pub set_inputs_part : ℕ × (ℕ × InputParser) → RawtxState → RawtxState
set_inputs_part (counter, (cur_step, (hashed, input))) state = record state {
  in_counter = counter;
  input_parser_context = (cur_step, input);
  hashed = hashed;
}

-- What the loop over the outputs changes.
unfoldable pub outputs_part : RawtxState → ℕ × (ℕ × OutputParser)
outputs_part state = (
  state.out_counter,
  (
    state.output_parser_context.0,
    (state.hashed, state.parser_outputs, state.output_parser_context.1),
  ),
)

unfoldable pub set_outputs_part : ℕ × (ℕ × OutputParser) → RawtxState → RawtxState
set_outputs_part (counter, (cur_step, (hashed, outputs, output))) state = record state {
  out_counter = counter;
  output_parser_context = (cur_step, output);
  hashed = hashed;
  parser_outputs = outputs;
}

-- What the loop over the witnesses changes.
unfoldable pub witnesses_part : RawtxState → ℕ × WitnessField
witnesses_part state = (state.wit_counter, state.witness)

unfoldable pub set_witnesses_part : ℕ × WitnessField → RawtxState → RawtxState
set_witnesses_part (counter, witness) state = record state {
  wit_counter = counter;
  witness = witness;
}

module _ {S : Type 0} (R : Reader S) where
  unfoldable pub parse_rawtx_version : ParsingStep RawtxState S
  parse_rawtx_version = read_step R 4 update_hash

  -- The marker and the flag, which are not hashed.
  unfoldable pub parse_rawtx_check_segwit : ParsingStep RawtxState S
  parse_rawtx_check_segwit state s =
      if not (R.can_read s 1)
      then (need_more, state, s)
      else (if not (R.peek s == 0)
          then (complete, record state { is_segwit = false }, s)
          else (if not (R.can_read s 2)
              then (need_more, state, s)
              else (let (marker, s1) = bytes_or_same s (R.read_bytes s 1) in
                  let (flag, s2) = bytes_or_same s1 (R.read_bytes s1 1) in
                  (if not (at flag 0 == 1)
                    then (error, state, s2)
                    else (complete, record state { is_segwit = true }, s2)))))

  unfoldable pub parse_rawtx_input_count : ParsingStep RawtxState S
  parse_rawtx_input_count = varint_step R set_n_inputs

  unfoldable pub parse_rawtx_inputs_init : ParsingStep RawtxState S
  parse_rawtx_inputs_init = init_step init_inputs

  unfoldable pub parse_inputs : RawtxState → ParsingStep (ℕ × (ℕ × InputParser)) S
  parse_inputs state =
      counted (λ in_counter. with_bool (parser_run (parse_rawtxinput_steps R))) parser_init_context
        state.n_inputs

  unfoldable pub parse_rawtx_inputs : ParsingStep RawtxState S
  parse_rawtx_inputs = on_part inputs_part set_inputs_part parse_inputs

  unfoldable pub parse_rawtx_output_count : ParsingStep RawtxState S
  parse_rawtx_output_count = varint_step R set_n_outputs

  unfoldable pub parse_rawtx_outputs_init : ParsingStep RawtxState S
  parse_rawtx_outputs_init = init_step init_outputs

  unfoldable pub parse_outputs : Option ℕ → RawtxState → ParsingStep (ℕ × (ℕ × OutputParser)) S
  parse_outputs output_index state =
      counted
        (λ out_counter. with_bool (parser_run (parse_rawtxoutput_steps output_index out_counter R)))
        parser_init_context state.n_outputs

  unfoldable pub parse_rawtx_outputs : Option ℕ → ParsingStep RawtxState S
  parse_rawtx_outputs output_index =
      on_part outputs_part set_outputs_part (parse_outputs output_index)

  unfoldable pub parse_rawtx_witnesses_init : ParsingStep RawtxState S
  parse_rawtx_witnesses_init = init_step init_witnesses

  unfoldable pub parse_fields : RawtxState → ParsingStep (ℕ × WitnessField) S
  parse_fields state counters s =
      if not state.is_segwit
      then (complete, counters, s)
      else parse_witness_fields R state.n_inputs counters s

  unfoldable pub parse_rawtx_witnesses : ParsingStep RawtxState S
  parse_rawtx_witnesses = on_part witnesses_part set_witnesses_part parse_fields

  unfoldable pub parse_rawtx_locktime : ParsingStep RawtxState S
  parse_rawtx_locktime = read_step R 4 update_hash

  -- `none` for the index -1 of the output that is asked for.
  abbrev pub parse_rawtx_steps : Option ℕ → List (ParsingStep RawtxState S)
  parse_rawtx_steps output_index =
      parse_rawtx_version
      ∷ parse_rawtx_check_segwit
      ∷ parse_rawtx_input_count
      ∷ parse_rawtx_inputs_init
      ∷ parse_rawtx_inputs
      ∷ parse_rawtx_output_count
      ∷ parse_rawtx_outputs_init
      ∷ parse_rawtx_outputs output_index
      ∷ parse_rawtx_witnesses_init
      ∷ parse_rawtx_witnesses
      ∷ parse_rawtx_locktime
      ∷ []
