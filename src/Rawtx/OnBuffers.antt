-- ===== src/Rawtx/OnBuffers.antt =====
-- The parser of raw transactions on a pair of buffers against the same on the bytes that remain in it.
use app_bitcoin_new.Prelude.{
  ℕ, ◌%◌, ◌^◌, ◌≡◌, refl, ap, ◌∙◌, arith, List, Option, none, some, Bool, true, false, not, ltb,
  ◌==◌, if◌then◌else◌, length,
}
use mathlib.Core.Path.{subst}
use app_bitcoin_new.Bytes.{at}
use app_bitcoin_new.Buffer.Stream.{take_bytes}
use app_bitcoin_new.Parser.{
  Dbuffer, dbuffer_can_read, dbuffer_read_bytes, bytes_or_same, StepResult, error, need_more,
  complete,
}
use app_bitcoin_new.Parser.Stream.{stream, dbuffer_can_read_fits}
use app_bitcoin_new.Parser.Varint.{peek_first-stream}
use app_bitcoin_new.Rawtx.{dbuffer_reader, stream_reader, hash_bytes}
use app_bitcoin_new.Rawtx.Buffers.{
  IsPair, Same, Agrees, ReadSame, now_Same, if_Same, read_bytes-ReadSame, bytes_or_same-IsPair,
}
use app_bitcoin_new.Rawtx.Agree.{
  AllAgree, read_step-Agrees, varint_step-Agrees, init_step-Agrees, with_bool-Agrees,
  parser_run-Agrees, on_part-Agrees, counted-Agrees, sized-Agrees, chunks-Agrees,
}
use app_bitcoin_new.Rawtx.Inputs.{
  hash_chunk, scriptsig_part, set_scriptsig_part, scriptsig_loop, parse_rawtxinput_txid,
  parse_rawtxinput_vout, parse_rawtxinput_scriptsig_size, parse_rawtxinput_scriptsig_init,
  parse_rawtxinput_scriptsig, parse_rawtxinput_sequence, parse_rawtxinput_steps, set_scriptsig_size,
  reset_scriptsig_counter,
}
use app_bitcoin_new.Rawtx.Outputs.{
  take_chunk, scriptpubkey_part, set_scriptpubkey_part, scriptpubkey_loop, parse_rawtxoutput_value,
  parse_rawtxoutput_scriptpubkey_size, parse_rawtxoutput_scriptpubkey_init,
  parse_rawtxoutput_scriptpubkey, parse_rawtxoutput_steps, set_value, set_scriptpubkey_size,
  reset_scriptpubkey_counter,
}
use app_bitcoin_new.Rawtx.Witnesses.{
  first_element, skip_chunk, skipped, skip_element, parse_witness_element, parse_witness_elements,
  parse_witness_field, parse_witness_fields,
}
use app_bitcoin_new.Rawtx.Transaction.{
  RawtxState, update_hash, set_n_inputs, set_n_outputs, parser_init_context, init_inputs,
  init_outputs, init_witnesses, inputs_part, set_inputs_part, outputs_part, set_outputs_part,
  witnesses_part, set_witnesses_part, parse_rawtx_version, parse_rawtx_check_segwit,
  parse_rawtx_input_count, parse_rawtx_inputs_init, parse_inputs, parse_rawtx_inputs,
  parse_rawtx_output_count, parse_rawtx_outputs_init, parse_outputs, parse_rawtx_outputs,
  parse_rawtx_witnesses_init, parse_fields, parse_rawtx_witnesses, parse_rawtx_locktime,
  parse_rawtx_steps,
}

module _ (ptr : List ℕ) where
  inputs_steps :
      AllAgree ptr (parse_rawtxinput_steps dbuffer_reader) (parse_rawtxinput_steps stream_reader)
  unfolding parse_rawtxinput_txid parse_rawtxinput_vout parse_rawtxinput_scriptsig_size
      parse_rawtxinput_scriptsig_init parse_rawtxinput_scriptsig parse_rawtxinput_sequence AllAgree
      scriptsig_loop
  inputs_steps = (
    read_step-Agrees ptr 32 hash_bytes,
    (
      read_step-Agrees ptr 4 hash_bytes,
      (
        varint_step-Agrees ptr set_scriptsig_size,
        (
          init_step-Agrees ptr reset_scriptsig_counter,
          (
            on_part-Agrees ptr scriptsig_part set_scriptsig_part (scriptsig_loop dbuffer_reader)
                (scriptsig_loop stream_reader)
                (λ p.
                  let size = p.1.scriptsig_size % 2 ^ 32 in
                  chunks-Agrees ptr hash_chunk size (λ counter. counter == size)),
            (read_step-Agrees ptr 4 hash_bytes, tt),
          ),
        ),
      ),
    ),
  )

  inputs-Agrees : Agrees ptr (parse_rawtx_inputs dbuffer_reader) (parse_rawtx_inputs stream_reader)
  unfolding parse_rawtx_inputs parse_inputs
  inputs-Agrees =
      on_part-Agrees ptr inputs_part set_inputs_part (parse_inputs dbuffer_reader)
        (parse_inputs stream_reader)
        (λ state.
          counted-Agrees ptr _ _ parser_init_context state.n_inputs
            (λ counter. with_bool-Agrees ptr _ _ (parser_run-Agrees ptr _ _ inputs_steps)))

  outputs_steps :
      (output_index : Option ℕ) (out_counter : ℕ)
      → AllAgree ptr
          (parse_rawtxoutput_steps output_index out_counter dbuffer_reader)
          (parse_rawtxoutput_steps output_index out_counter stream_reader)
  unfolding parse_rawtxoutput_value parse_rawtxoutput_scriptpubkey_size
      parse_rawtxoutput_scriptpubkey_init parse_rawtxoutput_scriptpubkey AllAgree scriptpubkey_loop
  outputs_steps output_index out_counter = (
    read_step-Agrees ptr 8 (set_value output_index out_counter),
    (
      varint_step-Agrees ptr (set_scriptpubkey_size output_index out_counter),
      (
        init_step-Agrees ptr reset_scriptpubkey_counter,
        (
          on_part-Agrees ptr scriptpubkey_part set_scriptpubkey_part
              (scriptpubkey_loop output_index out_counter dbuffer_reader)
              (scriptpubkey_loop output_index out_counter stream_reader)
              (λ p.
                let size = p.2.scriptpubkey_size % 2 ^ 32 in
                chunks-Agrees ptr (take_chunk output_index out_counter) size
                  (λ counter. counter == size)),
          tt,
        ),
      ),
    ),
  )

  outputs-Agrees :
      (output_index : Option ℕ)
      → Agrees ptr
          (parse_rawtx_outputs dbuffer_reader output_index)
          (parse_rawtx_outputs stream_reader output_index)
  unfolding parse_rawtx_outputs parse_outputs
  outputs-Agrees output_index =
      on_part-Agrees ptr outputs_part set_outputs_part (parse_outputs dbuffer_reader output_index)
        (parse_outputs stream_reader output_index)
        (λ state. counted-Agrees ptr _ _ parser_init_context state.n_outputs (λ counter.
          with_bool-Agrees ptr _ _
            (parser_run-Agrees ptr _ _ (outputs_steps output_index counter))))

  skipped-Same :
      (o : StepResult × (ℕ × Unit {0}) × Dbuffer) (o' : StepResult × (ℕ × Unit {0}) × List ℕ)
      → Same ptr o o'
      → Same ptr (skipped o) (skipped o')
  unfolding skipped
  skipped-Same o o' h = record { same = ap skipped h.same; kept = h.kept }

  skip_element-Agrees :
      (len : ℕ) → Agrees ptr (skip_element dbuffer_reader len) (skip_element stream_reader len)
  unfolding skip_element
  skip_element-Agrees len bytes_read d p =
      if_Same ptr (ltb bytes_read (len % 2 ^ 32)) _ _ _ _
        (skipped-Same _ _ (
          chunks-Agrees ptr skip_chunk (len % 2 ^ 32) (λ counter. not (ltb counter (len % 2 ^ 32)))
            (bytes_read, tt) d p))
        (now_Same ptr complete bytes_read d p)

  fields-Agrees :
      (n_inputs : ℕ)
      → Agrees ptr
          (parse_witness_fields dbuffer_reader n_inputs)
          (parse_witness_fields stream_reader n_inputs)
  unfolding parse_witness_fields parse_witness_field parse_witness_elements parse_witness_element
  fields-Agrees n_inputs =
      counted-Agrees ptr _ _ (λ field. field) n_inputs
        (λ i. sized-Agrees ptr first_element _ _ (λ n.
          counted-Agrees ptr _ _ (λ element. element) n
            (λ j. sized-Agrees ptr (λ bytes_read. 0) _ _ skip_element-Agrees)))

  witnesses-Agrees :
      Agrees ptr (parse_rawtx_witnesses dbuffer_reader) (parse_rawtx_witnesses stream_reader)
  unfolding parse_rawtx_witnesses parse_fields
  witnesses-Agrees =
      on_part-Agrees ptr witnesses_part set_witnesses_part (parse_fields dbuffer_reader)
        (parse_fields stream_reader)
        (λ state counters d p.
          if_Same ptr (not state.is_segwit) _ _ _ _ (now_Same ptr complete counters d p)
            (fields-Agrees state.n_inputs counters d p))

  if_agree :
      (c c' : Bool) (x y : StepResult × RawtxState × Dbuffer)
      (x' y' : StepResult × RawtxState × List ℕ)
      → c ≡ c'
      → (c ≡ true → Same ptr x x')
      → (c ≡ false → Same ptr y y')
      → Same ptr {State = RawtxState} (if c then x else y) (if c' then x' else y')
  if_agree true c' x y x' y' e h k = rw⁻¹ e (h refl)
  if_agree false c' x y x' y' e h k = rw⁻¹ e (k refl)

  at_stream :
      (r : StepResult) (state : RawtxState) (d : Dbuffer) (s : List ℕ)
      → stream d ≡ s
      → IsPair ptr d
      → Same ptr (r, state, d) (r, state, s)
  at_stream r state d s e p = record { same = ap (λ (u : List ℕ). (r, state, u)) e; kept = p }

  can_read_same :
      (d : Dbuffer) (n : ℕ)
      → IsPair ptr d
      → dbuffer_can_read d n ≡ (if ltb (length (stream d)) n then false else true)
  can_read_same d n p = dbuffer_can_read_fits d n p.valid ∙ ground arith

  bytes_same :
      (d : Dbuffer) (o : Option (List ℕ × Dbuffer)) (o' : Option (List ℕ × List ℕ))
      → ReadSame ptr o o'
      → ((bytes_or_same d o).0, stream (bytes_or_same d o).1) ≡ bytes_or_same (stream d) o'
  unfolding bytes_or_same
  bytes_same d none o' r = rw⁻¹ r.same refl
  bytes_same d (some (out, d')) o' r = rw⁻¹ r.same refl

  -- Two reads of a byte whose results are not looked at.
  two_bytes_same :
      (d : Dbuffer)
      → IsPair ptr d
      → let d1 = (bytes_or_same d (dbuffer_read_bytes d 1)).1 in
        let s1 = (bytes_or_same (stream d) (take_bytes (stream d) 1)).1 in
        (
          (bytes_or_same d1 (dbuffer_read_bytes d1 1)).0,
          stream (bytes_or_same d1 (dbuffer_read_bytes d1 1)).1,
        )
        ≡ bytes_or_same s1 (take_bytes s1 1)
  two_bytes_same d p =
      let d1 = (bytes_or_same d (dbuffer_read_bytes d 1)).1 in
      subst
        (λ (s : List ℕ).
          (
            (bytes_or_same d1 (dbuffer_read_bytes d1 1)).0,
            stream (bytes_or_same d1 (dbuffer_read_bytes d1 1)).1,
          )
          ≡ bytes_or_same s (take_bytes s 1))
        (ap (λ (r : List ℕ × List ℕ). r.1) (bytes_same d _ _ (read_bytes-ReadSame ptr d 1 p)))
        (bytes_same d1 _ _ (read_bytes-ReadSame ptr d1 1 (bytes_or_same-IsPair ptr d 1 p)))

  check_segwit-Agrees :
      Agrees ptr (parse_rawtx_check_segwit dbuffer_reader) (parse_rawtx_check_segwit stream_reader)
  unfolding parse_rawtx_check_segwit
  check_segwit-Agrees state d p =
      let d1 = (bytes_or_same d (dbuffer_read_bytes d 1)).1 in
      let d2 = (bytes_or_same d1 (dbuffer_read_bytes d1 1)).1 in
      let p2 = bytes_or_same-IsPair ptr d1 1 (bytes_or_same-IsPair ptr d 1 p) in
      let e = two_bytes_same d p in
      let rest = ap (λ (r : List ℕ × List ℕ). r.1) e in
      let left = dbuffer_can_read_fits d 1 p.valid in
      if_agree _ _ _ _ _ _ (ap not (can_read_same d 1 p))
        (λ short. now_Same ptr need_more state d p)
        (λ one.
          if_agree _ _ _ _ _ _ (ap (λ b. not (b == 0)) (peek_first-stream d p.valid (ground arith)))
            (λ legacy. now_Same ptr complete (record state { is_segwit = false }) d p)
            (λ marker.
              if_agree _ _ _ _ _ _ (ap not (can_read_same d 2 p))
                (λ short. now_Same ptr need_more state d p)
                (λ two.
                  if_agree _ _ _ _ _ _ (ap (λ (r : List ℕ × List ℕ). not (at r.0 0 == 1)) e)
                    (λ flag. at_stream error state d2 _ rest p2)
                    (λ flag. at_stream complete (record state { is_segwit = true }) d2 _ rest p2))))

  pub steps_Agree :
      (output_index : Option ℕ)
      → AllAgree ptr
          (parse_rawtx_steps dbuffer_reader output_index)
          (parse_rawtx_steps stream_reader output_index)
  unfolding parse_rawtx_version parse_rawtx_input_count parse_rawtx_inputs_init
      parse_rawtx_output_count parse_rawtx_outputs_init parse_rawtx_witnesses_init
      parse_rawtx_locktime AllAgree
  steps_Agree output_index = (
    read_step-Agrees ptr 4 update_hash,
    (
      check_segwit-Agrees,
      (
        varint_step-Agrees ptr set_n_inputs,
        (
          init_step-Agrees ptr init_inputs,
          (
            inputs-Agrees,
            (
              varint_step-Agrees ptr set_n_outputs,
              (
                init_step-Agrees ptr init_outputs,
                (
                  outputs-Agrees output_index,
                  (
                    init_step-Agrees ptr init_witnesses,
                    (witnesses-Agrees, (read_step-Agrees ptr 4 update_hash, tt)),
                  ),
                ),
              ),
            ),
          ),
        ),
      ),
    ),
  )
