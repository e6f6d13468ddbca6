-- ===== src/Rawtx/Whole.antt =====
-- The parser of a whole raw transaction on a stream that arrives in parts.
use app_bitcoin_new.Prelude.{
  ℕ, zero, suc, ◌≡◌, refl, arith, List, [], ◌∷◌, ◌++◌, Option, true, false, not, ltb, ◌==◌,
  if◌then◌else◌, length, All, Bool-cases, inl, inr,
}
use app_bitcoin_new.Buffer.Stream.{take_bytes}
use app_bitcoin_new.Parser.{StepResult, error, complete, bytes_or_same, parser_run}
use app_bitcoin_new.Parser.Run.{Resumed, Resumes, parser_run-Resumes}
use app_bitcoin_new.Rawtx.{stream_reader, with_bool}
use app_bitcoin_new.Rawtx.Resume.{read_step-Resumes, varint_step-Resumes, init_step-Resumes}
use app_bitcoin_new.Rawtx.Combine.{on_part-Resumes, with_bool-Resumes, counted-Resumes}
use app_bitcoin_new.Rawtx.Inputs.{parse_rawtxinput_steps}
use app_bitcoin_new.Rawtx.Outputs.{parse_rawtxoutput_steps}
use app_bitcoin_new.Rawtx.Transaction.{
  RawtxState, update_hash, set_n_inputs, set_n_outputs, parser_init_context, init_inputs,
  init_outputs, init_witnesses, inputs_part, set_inputs_part, outputs_part, set_outputs_part,
  witnesses_part, set_witnesses_part, parse_rawtx_version, parse_rawtx_check_segwit,
  parse_rawtx_input_count, parse_rawtx_inputs_init, parse_inputs, parse_rawtx_inputs,
  parse_rawtx_output_count, parse_rawtx_outputs_init, parse_outputs, parse_rawtx_outputs,
  parse_rawtx_witnesses_init, parse_fields, parse_rawtx_witnesses, parse_rawtx_locktime,
  parse_rawtx_steps,
}
use app_bitcoin_new.Rawtx.Parts.{parse_rawtxinput_steps-Resumes, parse_rawtxoutput_steps-Resumes}
use app_bitcoin_new.Rawtx.Fields.{parse_witness_fields-Resumes}

-- What is done with the flag.
check_flag : RawtxState → ℕ → List ℕ → StepResult × RawtxState × List ℕ
check_flag state flag s =
    if not (flag == 1) then (error, state, s) else (complete, record state { is_segwit = true }, s)

check_flag-Resumed :
    (state : RawtxState) (flag : ℕ) (s t : List ℕ)
    → Resumed
        (parse_rawtx_check_segwit stream_reader)
        t
        (check_flag state flag s)
        (check_flag state flag (s ++ t))
unfolding check_flag Resumed
check_flag-Resumed state flag s t = elim (Bool-cases (flag == 1)) [
  | inl e ↦ rw e refl
  | inr e ↦ rw e refl
]

check_segwit-marked :
    (state : RawtxState) (flag : ℕ) (s : List ℕ)
    → parse_rawtx_check_segwit stream_reader state (0 ∷ flag ∷ s) ≡ check_flag state flag s
unfolding parse_rawtx_check_segwit check_flag take_bytes bytes_or_same
check_segwit-marked state flag s =
    let a : ltb (suc (suc (length s))) 1 ≡ false = ground arith in
    let b : ltb (suc (suc (length s))) 2 ≡ false = ground arith in
    let c : ltb (suc (length s)) 1 ≡ false = ground arith in
    rw (a, b, c, parse_rawtx_check_segwit) refl

check_segwit-Resumes : Resumes (parse_rawtx_check_segwit stream_reader)
unfolding parse_rawtx_check_segwit Resumed
check_segwit-Resumes state [] t = refl
check_segwit-Resumes state (zero ∷ []) t = refl
check_segwit-Resumes state (zero ∷ flag ∷ s) t =
    rw (check_segwit-marked state flag s, check_segwit-marked state flag (s ++ t))
      (check_flag-Resumed state flag s t)
check_segwit-Resumes state (suc first_byte ∷ s) t =
    let a : ltb (suc (length s)) 1 ≡ false = ground arith in
    let b : ltb (suc (length (s ++ t))) 1 ≡ false = ground arith in
    let c : (suc first_byte == 0) ≡ false = ground arith in rw (a, b, c) refl

inputs-Resumes : Resumes (parse_rawtx_inputs stream_reader)
unfolding parse_rawtx_inputs inputs_part set_inputs_part parse_inputs
inputs-Resumes =
    on_part-Resumes inputs_part set_inputs_part (parse_inputs stream_reader) (λ p state. refl)
      (λ p p' state. refl) (λ p state. refl)
      (λ state.
        counted-Resumes
          (λ in_counter. with_bool (parser_run (parse_rawtxinput_steps stream_reader)))
          parser_init_context state.n_inputs
          (λ counter. with_bool-Resumes (parser_run (parse_rawtxinput_steps stream_reader)) (
            parser_run-Resumes (parse_rawtxinput_steps stream_reader)
              parse_rawtxinput_steps-Resumes)))

fields-Resumes : (state : RawtxState) → Resumes (parse_fields stream_reader state)
unfolding parse_fields Resumed
fields-Resumes state counters s t = elim (Bool-cases state.is_segwit) [
  | inl e ↦ rw e (parse_witness_fields-Resumes state.n_inputs counters s t)
  | inr e ↦ rw e refl
]

witnesses-Resumes : Resumes (parse_rawtx_witnesses stream_reader)
unfolding parse_rawtx_witnesses witnesses_part set_witnesses_part parse_fields
witnesses-Resumes =
    on_part-Resumes witnesses_part set_witnesses_part (parse_fields stream_reader) (λ p state. refl)
      (λ p p' state. refl) (λ p state. refl) fields-Resumes

module _ (output_index : Option ℕ) where
  outputs-Resumes : Resumes (parse_rawtx_outputs stream_reader output_index)
  unfolding parse_rawtx_outputs outputs_part set_outputs_part parse_outputs
  outputs-Resumes =
      on_part-Resumes outputs_part set_outputs_part (parse_outputs stream_reader output_index)
        (λ p state. refl) (λ p p' state. refl) (λ p state. refl)
        (λ state.
          counted-Resumes
            (λ out_counter.
              with_bool
                (parser_run (parse_rawtxoutput_steps output_index out_counter stream_reader)))
            parser_init_context state.n_outputs
            (λ counter.
              with_bool-Resumes
                (parser_run (parse_rawtxoutput_steps output_index counter stream_reader))
                (parser_run-Resumes (parse_rawtxoutput_steps output_index counter stream_reader)
                  (parse_rawtxoutput_steps-Resumes output_index counter))))

  steps-Resumes : All Resumes (parse_rawtx_steps stream_reader output_index)
  unfolding parse_rawtx_version parse_rawtx_input_count parse_rawtx_inputs_init
      parse_rawtx_output_count parse_rawtx_outputs_init parse_rawtx_witnesses_init
      parse_rawtx_locktime
  steps-Resumes = (
    read_step-Resumes 4 update_hash,
    (
      check_segwit-Resumes,
      (
        varint_step-Resumes set_n_inputs,
        (
          init_step-Resumes init_inputs,
          (
            inputs-Resumes,
            (
              varint_step-Resumes set_n_outputs,
              (
                init_step-Resumes init_outputs,
                (
                  outputs-Resumes,
                  (
                    init_step-Resumes init_witnesses,
                    (witnesses-Resumes, (read_step-Resumes 4 update_hash, tt)),
                  ),
                ),
              ),
            ),
          ),
        ),
      ),
    ),
  )

  -- The parser of raw transactions, on the bytes that it has: where more bytes follow, it either does the
  -- same with its result and state and leaves these bytes, or it stopped for more data, and goes on from its
  -- step, its state and the bytes that it left as if it had had all the bytes from the start.
  pub parse_rawtx_steps-Resumes :
      Resumes (parser_run (parse_rawtx_steps stream_reader output_index))
  parse_rawtx_steps-Resumes =
      parser_run-Resumes (parse_rawtx_steps stream_reader output_index) steps-Resumes
