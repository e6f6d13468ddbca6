-- ===== src/Rawtx/Parts.antt =====
-- The parser of raw transactions on a stream that arrives in parts.
use app_bitcoin_new.Prelude.{ℕ, ◌%◌, ◌^◌, ◌<◌, ◌≡◌, refl, arith, Option, true, ◌==◌, All}
use app_bitcoin_new.Parser.Run.{Resumes}
use app_bitcoin_new.Rawtx.{stream_reader, remaining_len, hash_bytes}
use app_bitcoin_new.Rawtx.Resume.{
  read_step-Resumes, varint_step-Resumes, init_step-Resumes, chunks-Resumes,
}
use app_bitcoin_new.Rawtx.Combine.{on_part-Resumes}
use app_bitcoin_new.Rawtx.Inputs.{
  InputParser, hash_chunk, scriptsig_part, set_scriptsig_part, scriptsig_loop,
  parse_rawtxinput_txid, parse_rawtxinput_vout, parse_rawtxinput_scriptsig_size,
  parse_rawtxinput_scriptsig_init, parse_rawtxinput_scriptsig, parse_rawtxinput_sequence,
  parse_rawtxinput_steps, set_scriptsig_size, reset_scriptsig_counter,
}
use app_bitcoin_new.Rawtx.Outputs.{
  OutputParser, take_chunk, scriptpubkey_part, set_scriptpubkey_part, scriptpubkey_loop,
  parse_rawtxoutput_value, parse_rawtxoutput_scriptpubkey_size, parse_rawtxoutput_scriptpubkey_init,
  parse_rawtxoutput_scriptpubkey, parse_rawtxoutput_steps, set_value, set_scriptpubkey_size,
  reset_scriptpubkey_counter,
}

-- A counter that has nothing left has reached the size.
pub reached :
    (size counter : ℕ)
    → counter < 2 ^ 32
    → remaining_len (size % 2 ^ 32) counter ≡ 0
    → (counter == size % 2 ^ 32) ≡ true
reached size counter small e = ground arith

scriptsig_loop-Resumes : (p : InputParser) → Resumes (scriptsig_loop stream_reader p)
unfolding scriptsig_loop
scriptsig_loop-Resumes (hashed, state) =
    let size = state.scriptsig_size in
    chunks-Resumes hash_chunk (size % 2 ^ 32) (λ counter. counter == size % 2 ^ 32)
      (λ counter small e. reached size counter small e)

parse_rawtxinput_scriptsig-Resumes : Resumes (parse_rawtxinput_scriptsig stream_reader)
unfolding parse_rawtxinput_scriptsig scriptsig_part set_scriptsig_part scriptsig_loop
parse_rawtxinput_scriptsig-Resumes =
    on_part-Resumes scriptsig_part set_scriptsig_part (scriptsig_loop stream_reader)
      (λ p state. refl) (λ p p' state. refl) (λ p state. refl) scriptsig_loop-Resumes

pub parse_rawtxinput_steps-Resumes : All Resumes (parse_rawtxinput_steps stream_reader)
unfolding parse_rawtxinput_txid parse_rawtxinput_vout parse_rawtxinput_scriptsig_size
    parse_rawtxinput_scriptsig_init parse_rawtxinput_sequence
parse_rawtxinput_steps-Resumes = (
  read_step-Resumes 32 hash_bytes,
  (
    read_step-Resumes 4 hash_bytes,
    (
      varint_step-Resumes set_scriptsig_size,
      (
        init_step-Resumes reset_scriptsig_counter,
        (parse_rawtxinput_scriptsig-Resumes, (read_step-Resumes 4 hash_bytes, tt)),
      ),
    ),
  ),
)

module _ (output_index : Option ℕ) (out_counter : ℕ) where
  scriptpubkey_loop-Resumes :
      (p : OutputParser) → Resumes (scriptpubkey_loop output_index out_counter stream_reader p)
  unfolding scriptpubkey_loop
  scriptpubkey_loop-Resumes (hashed, outputs, state) =
      let size = state.scriptpubkey_size in
      chunks-Resumes (take_chunk output_index out_counter) (size % 2 ^ 32)
        (λ counter. counter == size % 2 ^ 32) (λ counter small e. reached size counter small e)

  parse_rawtxoutput_scriptpubkey-Resumes :
      Resumes (parse_rawtxoutput_scriptpubkey output_index out_counter stream_reader)
  unfolding parse_rawtxoutput_scriptpubkey scriptpubkey_part set_scriptpubkey_part scriptpubkey_loop
  parse_rawtxoutput_scriptpubkey-Resumes =
      on_part-Resumes scriptpubkey_part set_scriptpubkey_part
        (scriptpubkey_loop output_index out_counter stream_reader) (λ p state. refl)
        (λ p p' state. refl) (λ p state. refl) scriptpubkey_loop-Resumes

  pub parse_rawtxoutput_steps-Resumes :
      All Resumes (parse_rawtxoutput_steps output_index out_counter stream_reader)
  unfolding parse_rawtxoutput_value parse_rawtxoutput_scriptpubkey_size
      parse_rawtxoutput_scriptpubkey_init
  parse_rawtxoutput_steps-Resumes = (
    read_step-Resumes 8 (set_value output_index out_counter),
    (
      varint_step-Resumes (set_scriptpubkey_size output_index out_counter),
      (init_step-Resumes reset_scriptpubkey_counter, (parse_rawtxoutput_scriptpubkey-Resumes, tt)),
    ),
  )
