-- ===== src/Rawtx/CallTests.antt =====
-- A run of `call_psbt_parse_rawtx`, and the theorems of it and of `call_stream_preimage` at it.
use app_bitcoin_new.Prelude.{
  ℕ, ◌+◌, ◌≡◌, refl, arith, List, [], ◌∷◌, ◌++◌, Option, some, false, All, length, replicate, take,
  ◌⊎◌,
}
use app_bitcoin_new.Merkle.Tree.{Tree, leaf, node}
use app_bitcoin_new.Client.Tests.{front, message, with_messages, a_key, keys, key_answer}
use app_bitcoin_new.Buffer.Stream.{remaining}
use app_bitcoin_new.Client.Received.{Fits}
use app_bitcoin_new.Client.Map.Value.{map_of}
use app_bitcoin_new.Client.Stream.Sound.{EmptyStart, Streamed, call_stream_preimage-Streamed}
use app_bitcoin_new.Rawtx.Sound.{first_context, TooLong, Parsed, call_psbt_parse_rawtx-Parsed}
use app_bitcoin_new.Rawtx.Tests.{state, tx_front, tx_back}
use app_bitcoin_new.Varint.{varint_size, varint_read, varint_write}
use app_bitcoin_new.Merkle.{
  merkle_compute_element_hash, merkle_combine_hashes, ceil_lg_loop, ceil_lg, direction_loop,
  merkle_get_ith_direction,
}
use app_bitcoin_new.Buffer.{
  Buffer, buffer_create, buffer_can_read, buffer_seek_cur, buffer_read_u8, buffer_read_varint,
  buffer_read_bytes, alloc_padding,
}
use app_bitcoin_new.Bytes.{read_u64_le}
use app_bitcoin_new.Client.{
  Context, Call, diverges, failed, done, apdu_parser, add_to_response, finalize_response,
  set_response, accept, exchange, process_interruption, interrupt, check,
}
use app_bitcoin_new.Client.LeafHash.{
  bytes_eq, memcmp_eq, varint_bytes, send_proof_request, skip_hash, more_elements, proof_start,
  combine_step, proof_elements, proof_rounds, call_get_merkle_leaf_hash,
}
use app_bitcoin_new.Client.Map.{
  fail_as, leaf_index_answer, return_int, call_get_merkle_leaf_index,
  call_get_merkleized_map_value_hash,
}
use app_bitcoin_new.Client.Preimage.{
  send_preimage_request, preimage_start, more_bytes, preimage_rounds, compare_hash,
}
use app_bitcoin_new.Client.Stream.{
  after_callback, part_at, calls, stream_rounds, compare_stream, call_stream_preimage,
}
use app_bitcoin_new.Parser.{
  dbuffer_get_length, dbuffer_can_read, read_part, dbuffer_read_bytes, bytes_or_same, peek_first,
  varint_len, dbuffer_read_varint, parser_consolidate_buffers, next_step, run_from, parser_run,
}
use app_bitcoin_new.Rawtx.{
  read_step, varint_step, data_len, chunk_loop, chunks, hash_bytes, on_part, as_bool, with_bool,
  counted_rounds, counted,
}
use app_bitcoin_new.Rawtx.Inputs.{
  set_scriptsig_size, reset_scriptsig_counter, hash_chunk, scriptsig_part, set_scriptsig_part,
  parse_rawtxinput_txid, parse_rawtxinput_vout, parse_rawtxinput_scriptsig_size,
  parse_rawtxinput_scriptsig_init, scriptsig_loop, parse_rawtxinput_scriptsig,
  parse_rawtxinput_sequence,
}
use app_bitcoin_new.Rawtx.Outputs.{
  TxidOutputs, is_relevant, reset_scriptpubkey_counter, scriptpubkey_part, set_scriptpubkey_part,
  set_value, set_scriptpubkey_size, take_chunk, parse_rawtxoutput_value,
  parse_rawtxoutput_scriptpubkey_size, parse_rawtxoutput_scriptpubkey_init, scriptpubkey_loop,
  parse_rawtxoutput_scriptpubkey,
}
use app_bitcoin_new.Rawtx.Transaction.{
  update_hash, set_n_inputs, set_n_outputs, parser_init_context, init_inputs, init_outputs,
  init_witnesses, inputs_part, set_inputs_part, outputs_part, set_outputs_part, witnesses_part,
  set_witnesses_part, parse_rawtx_version, parse_rawtx_check_segwit, parse_rawtx_input_count,
  parse_rawtx_inputs_init, parse_inputs, parse_rawtx_inputs, parse_rawtx_output_count,
  parse_rawtx_outputs_init, parse_outputs, parse_rawtx_outputs, parse_rawtx_witnesses_init,
  parse_fields, parse_rawtx_witnesses, parse_rawtx_locktime,
}
use app_bitcoin_new.Rawtx.Process.{
  ParseState, consolidated, after_run, cb_process_data, process_parts,
}
use app_bitcoin_new.Rawtx.Call.{start_state, call_psbt_parse_rawtx}

abbrev tx : List ℕ
tx = tx_front ++ tx_back

abbrev memory : ParseState
memory = record {
  store = replicate 32 0;
  store_data_length = 0;
  parser_context = (0, state);
  parser_error = false;
}

abbrev values : Tree (List ℕ)
values = node (leaf (replicate 32 7)) (leaf (front (0 ∷ tx)))

-- Where the key stands, the proofs of the key and of the value, and the value in two parts.
abbrev messages : Context
messages = with_messages (
    message (1 ∷ 1 ∷ [])
    ∷ message key_answer
    ∷ message (front (0 ∷ tx) ++ (1 ∷ 1 ∷ replicate 32 7))
    ∷ message ((length tx + 1) ∷ (length tx_front + 1) ∷ 0 ∷ tx_front)
    ∷ message (length tx_back ∷ 1 ∷ tx_back)
    ∷ [])

context_of : {A : Type 0} → Call A → Context
context_of (done a dc) = dc
context_of diverges = messages
context_of (failed code dc) = dc

-- The second output is that of the index 1.
abbrev the_outputs : TxidOutputs
the_outputs = record {
  vout_value = 265;
  vout_scriptpubkey_len = 2;
  vout_scriptpubkey = 0x51 ∷ 0x52 ∷ replicate 32 0;
}

abbrev run : Call (List ℕ × TxidOutputs)
run =
    call_psbt_parse_rawtx front memory (map_of front keys values) a_key 1 (some 1)
      state.parser_outputs messages

ran : run ≡ done (take 32 tx, the_outputs) (context_of run)
unfolding varint_size varint_read varint_write merkle_compute_element_hash merkle_combine_hashes
    ceil_lg_loop ceil_lg direction_loop merkle_get_ith_direction buffer_create buffer_can_read
    buffer_seek_cur buffer_read_u8 buffer_read_varint buffer_read_bytes alloc_padding read_u64_le
    apdu_parser add_to_response finalize_response set_response accept exchange process_interruption
    interrupt check bytes_eq memcmp_eq varint_bytes send_proof_request skip_hash more_elements
    proof_start combine_step proof_elements proof_rounds call_get_merkle_leaf_hash fail_as
    leaf_index_answer return_int call_get_merkle_leaf_index call_get_merkleized_map_value_hash
    send_preimage_request preimage_start more_bytes preimage_rounds compare_hash after_callback
    part_at calls stream_rounds compare_stream call_stream_preimage dbuffer_get_length
    dbuffer_can_read read_part dbuffer_read_bytes bytes_or_same peek_first varint_len
    dbuffer_read_varint parser_consolidate_buffers next_step run_from parser_run read_step
    varint_step data_len chunk_loop chunks hash_bytes on_part as_bool with_bool counted_rounds
    counted set_scriptsig_size reset_scriptsig_counter hash_chunk scriptsig_part set_scriptsig_part
    parse_rawtxinput_txid parse_rawtxinput_vout parse_rawtxinput_scriptsig_size
    parse_rawtxinput_scriptsig_init scriptsig_loop parse_rawtxinput_scriptsig
    parse_rawtxinput_sequence is_relevant reset_scriptpubkey_counter scriptpubkey_part
    set_scriptpubkey_part set_value set_scriptpubkey_size take_chunk parse_rawtxoutput_value
    parse_rawtxoutput_scriptpubkey_size parse_rawtxoutput_scriptpubkey_init scriptpubkey_loop
    parse_rawtxoutput_scriptpubkey update_hash set_n_inputs set_n_outputs parser_init_context
    init_inputs init_outputs init_witnesses inputs_part set_inputs_part outputs_part
    set_outputs_part witnesses_part set_witnesses_part parse_rawtx_version parse_rawtx_check_segwit
    parse_rawtx_input_count parse_rawtx_inputs_init parse_inputs parse_rawtx_inputs
    parse_rawtx_output_count parse_rawtx_outputs_init parse_outputs parse_rawtx_outputs
    parse_rawtx_witnesses_init parse_fields parse_rawtx_witnesses parse_rawtx_locktime consolidated
    after_run cb_process_data process_parts start_state call_psbt_parse_rawtx context_of
ran = refl

messages-Fits : All Fits messages.incoming
messages-Fits = (
  (omega arith, omega arith),
  (
    (omega arith, omega arith),
    ((omega arith, omega arith), ((omega arith, omega arith), ((omega arith, omega arith), tt))),
  ),
)

call_psbt_parse_rawtx-Parsed_example :
    (value_hash : List ℕ) × (dc0 : Context) × (call_get_merkleized_map_value_hash front
        (map_of front keys values)
        a_key
        1
        messages
      ≡ done value_hash dc0)
    × (EmptyStart value_hash dc0
        ⊎ ((bytes : List ℕ) × (first : ℕ) × (take 32 (front (first ∷ bytes)) ≡ take 32 value_hash)
            × (TooLong (some 1) (first_context state.parser_outputs memory) bytes
                ⊎ Parsed
                    (some 1)
                    (first_context state.parser_outputs memory)
                    front
                    bytes
                    (take 32 tx)
                    the_outputs)))
call_psbt_parse_rawtx-Parsed_example =
    call_psbt_parse_rawtx-Parsed front memory (some 1) state.parser_outputs refl
      (map_of front keys values) a_key 1 messages (take 32 tx) the_outputs (context_of run)
      messages-Fits ran

-- A callback that keeps what it is given.
abbrev keep : Buffer → List ℕ → Option (List ℕ)
keep part bytes = some (bytes ++ remaining part)

abbrev parts : Context
parts = with_messages (
    message ((length tx + 1) ∷ (length tx_front + 1) ∷ 0 ∷ tx_front)
    ∷ message (length tx_back ∷ 1 ∷ tx_back)
    ∷ [])

abbrev kept : Call (ℕ × List ℕ)
kept = call_stream_preimage keep front (λ len bytes. bytes) (front (0 ∷ tx)) [] parts

kept_all : kept ≡ done (length tx, tx) (context_of kept)
unfolding varint_size varint_read varint_write merkle_compute_element_hash merkle_combine_hashes
    ceil_lg_loop ceil_lg direction_loop merkle_get_ith_direction buffer_create buffer_can_read
    buffer_seek_cur buffer_read_u8 buffer_read_varint buffer_read_bytes alloc_padding read_u64_le
    apdu_parser add_to_response finalize_response set_response accept exchange process_interruption
    interrupt check bytes_eq memcmp_eq varint_bytes send_proof_request skip_hash more_elements
    proof_start combine_step proof_elements proof_rounds call_get_merkle_leaf_hash fail_as
    leaf_index_answer return_int call_get_merkle_leaf_index call_get_merkleized_map_value_hash
    send_preimage_request preimage_start more_bytes preimage_rounds compare_hash after_callback
    part_at calls stream_rounds compare_stream call_stream_preimage dbuffer_get_length
    dbuffer_can_read read_part dbuffer_read_bytes bytes_or_same peek_first varint_len
    dbuffer_read_varint parser_consolidate_buffers next_step run_from parser_run read_step
    varint_step data_len chunk_loop chunks hash_bytes on_part as_bool with_bool counted_rounds
    counted set_scriptsig_size reset_scriptsig_counter hash_chunk scriptsig_part set_scriptsig_part
    parse_rawtxinput_txid parse_rawtxinput_vout parse_rawtxinput_scriptsig_size
    parse_rawtxinput_scriptsig_init scriptsig_loop parse_rawtxinput_scriptsig
    parse_rawtxinput_sequence is_relevant reset_scriptpubkey_counter scriptpubkey_part
    set_scriptpubkey_part set_value set_scriptpubkey_size take_chunk parse_rawtxoutput_value
    parse_rawtxoutput_scriptpubkey_size parse_rawtxoutput_scriptpubkey_init scriptpubkey_loop
    parse_rawtxoutput_scriptpubkey update_hash set_n_inputs set_n_outputs parser_init_context
    init_inputs init_outputs init_witnesses inputs_part set_inputs_part outputs_part
    set_outputs_part witnesses_part set_witnesses_part parse_rawtx_version parse_rawtx_check_segwit
    parse_rawtx_input_count parse_rawtx_inputs_init parse_inputs parse_rawtx_inputs
    parse_rawtx_output_count parse_rawtx_outputs_init parse_outputs parse_rawtx_outputs
    parse_rawtx_witnesses_init parse_fields parse_rawtx_witnesses parse_rawtx_locktime consolidated
    after_run cb_process_data process_parts start_state call_psbt_parse_rawtx context_of
kept_all = refl

call_stream_preimage-Streamed_example :
    EmptyStart (front (0 ∷ tx)) parts ⊎ Streamed keep front (front (0 ∷ tx)) [] (length tx) tx
call_stream_preimage-Streamed_example =
    call_stream_preimage-Streamed keep front (λ len bytes. bytes) (front (0 ∷ tx)) [] parts
      (length tx) tx (context_of kept)
      ((omega arith, omega arith), ((omega arith, omega arith), tt)) kept_all
