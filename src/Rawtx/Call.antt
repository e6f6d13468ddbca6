-- ===== src/Rawtx/Call.antt =====
-- handler/lib/psbt_parse_rawtx.c: the call that parses a transaction of a merkleized map.
use app_bitcoin_new.Prelude.{ℕ, List, [], Option, false, take, if◌then◌else◌}
use app_bitcoin_new.Client.{Context, Call, failed, done, ◌>>=◌}
use app_bitcoin_new.Client.Map.{
  MerkleizedMapCommitment, call_get_merkleized_map_value_hash, fail_as,
}
use app_bitcoin_new.Client.Stream.{call_stream_preimage}
use app_bitcoin_new.Rawtx.Outputs.{TxidOutputs}
use app_bitcoin_new.Rawtx.Process.{ParseState, cb_process_data}

-- The state at the start: what the call sets, and whatever stood in the rest of the memory.
unfoldable pub start_state : TxidOutputs → ParseState → ParseState
start_state outputs memory = record memory {
  store_data_length = 0;
  parser_error = false;
  parser_context = (0, record memory.parser_context.1 { hashed = []; parser_outputs = outputs });
}

-- The result 0 is `done` with the transaction's id and the other outputs. `none` is the output index -1.
unfoldable pub call_psbt_parse_rawtx :
    (List ℕ → List ℕ)
    → ParseState
    → MerkleizedMapCommitment
    → List ℕ
    → ℕ
    → Option ℕ
    → TxidOutputs
    → Context
    → Call (List ℕ × TxidOutputs)
call_psbt_parse_rawtx sha256 memory m key key_len output_index outputs dc =
    fail_as 1 (call_get_merkleized_map_value_hash sha256 m key key_len dc) >>= λ value_hash dc0.
    fail_as 1 (
      call_stream_preimage (cb_process_data output_index) sha256 (λ len state. state) value_hash
        (start_state outputs memory) dc0)
    >>= λ streamed dc1.
        let state = streamed.1.parser_context.1 in
        if streamed.1.parser_error
        then failed 1 dc1
        else done (sha256 (take 32 (sha256 state.hashed)), state.parser_outputs) dc1
