-- ===== src/Rawtx/Returns.antt =====
-- The parser of raw transactions returns on all input.
use app_bitcoin_new.Prelude.{ℕ, ◌%◌, ◌^◌, arith, List, Option, not, ltb, ◌==◌, All}
use app_bitcoin_new.Bytes.{at}
use app_bitcoin_new.Buffer.Stream.{take_bytes}
use app_bitcoin_new.Parser.{parser_run, bytes_or_same}
use app_bitcoin_new.Parser.Run.{Returns}
use app_bitcoin_new.Rawtx.{stream_reader, chunks, on_part, hash_bytes}
use app_bitcoin_new.Rawtx.Resume.{loop-Returns}
use app_bitcoin_new.Rawtx.Parts.{reached}
use app_bitcoin_new.Rawtx.Inputs.{
  InputParser, hash_chunk, scriptsig_part, scriptsig_loop, parse_rawtxinput_txid,
  parse_rawtxinput_vout, parse_rawtxinput_scriptsig_size, parse_rawtxinput_scriptsig_init,
  parse_rawtxinput_scriptsig, parse_rawtxinput_sequence, parse_rawtxinput_steps, set_scriptsig_size,
  reset_scriptsig_counter,
}
use app_bitcoin_new.Rawtx.Outputs.{
  OutputParser, take_chunk, scriptpubkey_part, scriptpubkey_loop, parse_rawtxoutput_value,
  parse_rawtxoutput_scriptpubkey_size, parse_rawtxoutput_scriptpubkey_init,
  parse_rawtxoutput_scriptpubkey, parse_rawtxoutput_steps, set_value, set_scriptpubkey_size,
  reset_scriptpubkey_counter,
}
use app_bitcoin_new.Rawtx.Witnesses.{
  first_element, skip_chunk, skipped, skip_element, parse_witness_element, parse_witness_elements,
  parse_witness_field, parse_witness_fields,
}
use app_bitcoin_new.Rawtx.Transaction.{
  RawtxState, update_hash, set_n_inputs, set_n_outputs, parser_init_context, init_inputs,
  init_outputs, init_witnesses, inputs_part, outputs_part, witnesses_part, parse_rawtx_version,
  parse_rawtx_check_segwit, parse_rawtx_input_count, parse_rawtx_inputs_init, parse_inputs,
  parse_rawtx_inputs, parse_rawtx_output_count, parse_rawtx_outputs_init, parse_outputs,
  parse_rawtx_outputs, parse_rawtx_witnesses_init, parse_fields, parse_rawtx_witnesses,
  parse_rawtx_locktime, parse_rawtx_steps,
}
use app_bitcoin_new.Rawtx.Total.{
  sized-IsTotal, IsTotal, if_Returns, read_step-IsTotal, varint_step-IsTotal, init_step-IsTotal,
  with_bool-IsTotal, parser_run-IsTotal, counted-IsTotal,
}

scriptsig_loop-IsTotal : (p : InputParser) → IsTotal (scriptsig_loop stream_reader p)
unfolding scriptsig_loop chunks
scriptsig_loop-IsTotal p (counter, hashed) s =
    let size = p.1.scriptsig_size in
    loop-Returns hash_chunk (size % 2 ^ 32) (λ c. c == size % 2 ^ 32)
      (λ c small e. reached size c small e) _ counter hashed s (omega arith)

inputs_steps : All IsTotal (parse_rawtxinput_steps stream_reader)
unfolding parse_rawtxinput_txid parse_rawtxinput_vout parse_rawtxinput_scriptsig_size
    parse_rawtxinput_scriptsig_init parse_rawtxinput_scriptsig parse_rawtxinput_sequence on_part
inputs_steps = (
  read_step-IsTotal 32 hash_bytes,
  (
    read_step-IsTotal 4 hash_bytes,
    (
      varint_step-IsTotal set_scriptsig_size,
      (
        init_step-IsTotal reset_scriptsig_counter,
        (
          (λ p s. scriptsig_loop-IsTotal p (scriptsig_part p) s),
          (read_step-IsTotal 4 hash_bytes, tt),
        ),
      ),
    ),
  ),
)

module _ (i : Option ℕ) (out_counter : ℕ) where
  scriptpubkey_loop-IsTotal :
      (p : OutputParser) → IsTotal (scriptpubkey_loop i out_counter stream_reader p)
  unfolding scriptpubkey_loop chunks
  scriptpubkey_loop-IsTotal p (counter, a) s =
      let size = p.2.scriptpubkey_size in
      loop-Returns (take_chunk i out_counter) (size % 2 ^ 32) (λ c. c == size % 2 ^ 32)
        (λ c small e. reached size c small e) _ counter a s (omega arith)

  outputs_steps : All IsTotal (parse_rawtxoutput_steps i out_counter stream_reader)
  unfolding parse_rawtxoutput_value parse_rawtxoutput_scriptpubkey_size
      parse_rawtxoutput_scriptpubkey_init parse_rawtxoutput_scriptpubkey on_part
  outputs_steps = (
    read_step-IsTotal 8 (set_value i out_counter),
    (
      varint_step-IsTotal (set_scriptpubkey_size i out_counter),
      (
        init_step-IsTotal reset_scriptpubkey_counter,
        ((λ p s. scriptpubkey_loop-IsTotal p (scriptpubkey_part p) s), tt),
      ),
    ),
  )

skip_element-IsTotal : (len : ℕ) → IsTotal (skip_element stream_reader len)
unfolding skip_element skipped chunks
skip_element-IsTotal len bytes_read s =
    if_Returns (ltb bytes_read (len % 2 ^ 32)) _ _
      (loop-Returns skip_chunk (len % 2 ^ 32) (λ c. not (ltb c (len % 2 ^ 32)))
        (λ c small e. ground arith) _ bytes_read tt s (omega arith))
      (unfold Returns in tt)

fields-IsTotal : (n_inputs : ℕ) → IsTotal (parse_witness_fields stream_reader n_inputs)
unfolding parse_witness_fields parse_witness_field parse_witness_elements parse_witness_element
fields-IsTotal n_inputs =
    counted-IsTotal _ (λ field. field) n_inputs
      (λ i. sized-IsTotal first_element _ (λ n.
        counted-IsTotal _ (λ element. element) n
          (λ j. sized-IsTotal (λ bytes_read. 0) _ skip_element-IsTotal)))

check_segwit-IsTotal : IsTotal (parse_rawtx_check_segwit stream_reader)
unfolding parse_rawtx_check_segwit Returns
check_segwit-IsTotal state s = if_Returns (not (stream_reader.can_read s 1)) _ _ tt (
    if_Returns (not (at s 0 == 0)) _ _ tt (
      if_Returns (not (stream_reader.can_read s 2)) _ _ tt (
        if_Returns
          (not (at (bytes_or_same _ (take_bytes (bytes_or_same s (take_bytes s 1)).1 1)).0 0 == 1))
          _ _ tt tt)))

module _ (i : Option ℕ) where
  inputs-IsTotal : IsTotal (parse_rawtx_inputs stream_reader)
  unfolding parse_rawtx_inputs on_part parse_inputs
  inputs-IsTotal state s =
      counted-IsTotal _ parser_init_context state.n_inputs
        (λ c. with_bool-IsTotal _ (parser_run-IsTotal _ inputs_steps)) (inputs_part state) s

  outputs-IsTotal : IsTotal (parse_rawtx_outputs stream_reader i)
  unfolding parse_rawtx_outputs on_part parse_outputs
  outputs-IsTotal state s =
      counted-IsTotal _ parser_init_context state.n_outputs
        (λ c. with_bool-IsTotal _ (parser_run-IsTotal _ (outputs_steps i c))) (outputs_part state) s

  witnesses-IsTotal : IsTotal (parse_rawtx_witnesses stream_reader)
  unfolding parse_rawtx_witnesses on_part parse_fields
  witnesses-IsTotal state s =
      if_Returns (not state.is_segwit) _ _ (unfold Returns in tt)
        (fields-IsTotal state.n_inputs (witnesses_part state) s)

  steps : All IsTotal (parse_rawtx_steps stream_reader i)
  unfolding parse_rawtx_version parse_rawtx_input_count parse_rawtx_inputs_init
      parse_rawtx_output_count parse_rawtx_outputs_init parse_rawtx_witnesses_init
      parse_rawtx_locktime
  steps = (
    read_step-IsTotal 4 update_hash,
    (
      check_segwit-IsTotal,
      (
        varint_step-IsTotal set_n_inputs,
        (
          init_step-IsTotal init_inputs,
          (
            inputs-IsTotal,
            (
              varint_step-IsTotal set_n_outputs,
              (
                init_step-IsTotal init_outputs,
                (
                  outputs-IsTotal,
                  (
                    init_step-IsTotal init_witnesses,
                    (witnesses-IsTotal, (read_step-IsTotal 4 update_hash, tt)),
                  ),
                ),
              ),
            ),
          ),
        ),
      ),
    ),
  )

  -- From every state and on all bytes, the parser of raw transactions returns.
  pub parse_rawtx_steps-Returns :
      (context : ℕ × RawtxState) (s : List ℕ)
      → Returns (parser_run (parse_rawtx_steps stream_reader i) context s).0
  parse_rawtx_steps-Returns = parser_run-IsTotal (parse_rawtx_steps stream_reader i) steps
