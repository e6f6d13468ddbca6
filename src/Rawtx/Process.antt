-- ===== src/Rawtx/Process.antt =====
-- handler/lib/psbt_parse_rawtx.c: what is kept between two parts of a transaction.
use app_bitcoin_new.Prelude.{ℕ, List, Option, none, some, Bool, true, if◌then◌else◌}
use app_bitcoin_new.Buffer.{Buffer, buffer_create}
use app_bitcoin_new.Client.Stream.{calls}
use app_bitcoin_new.Parser.{
  Dbuffer, StepResult, error, need_more, complete, endless, parser_run, parser_consolidate_buffers,
}
use app_bitcoin_new.Rawtx.{dbuffer_reader}
use app_bitcoin_new.Rawtx.Transaction.{RawtxState, parse_rawtx_steps}

abbrev pub store_size : ℕ
store_size = 32

-- `psbt_parse_rawtx_state_t`; the context of the parser is its step and its state.
pub record ParseState : Type 0 where
  pub store : List ℕ
  pub store_data_length : ℕ
  pub parser_context : ℕ × RawtxState
  pub parser_error : Bool

-- The buffers after `parser_consolidate_buffers`, whose result is not looked at.
unfoldable pub consolidated : Dbuffer → Dbuffer
consolidated d = elim (parser_consolidate_buffers d store_size) [ none ↦ d | some d' ↦ d' ]

-- What follows the run of the parser; `none` stands for a run that does not return.
unfoldable pub after_run : ParseState → StepResult → ℕ × RawtxState → Dbuffer → Option ParseState
after_run state need_more context d =
    let store_buf = (consolidated d).first in
    some (record state {
      parser_context = context;
      store = store_buf.ptr;
      store_data_length = store_buf.size;
    })
after_run state error context d =
    some (record state { parser_context = context; parser_error = true })
after_run state complete context d = some (record state { parser_context = context })
after_run state endless context d = none

-- `store_buf` and the part lie at different addresses.
unfoldable pub cb_process_data : Option ℕ → Buffer → ParseState → Option ParseState
cb_process_data output_index part state =
    if state.parser_error
    then some state
    else let store_buf = buffer_create 0 state.store state.store_data_length in
      let (r, context, d) =
        parser_run (parse_rawtx_steps dbuffer_reader output_index) state.parser_context
          (record { first = store_buf; second = part }) in
      after_run state r context d

-- One call for each part that arrives.
unfoldable pub process_parts : Option ℕ → List Buffer → ParseState → Option ParseState
process_parts output_index = calls (cb_process_data output_index)
