-- ===== src/Rawtx/Fields.antt =====
-- The parser of the witnesses on a stream that arrives in parts.
use app_bitcoin_new.Prelude.{
  ℕ, suc, ◌%◌, ◌^◌, ◌<◌, ◌≡◌, refl, sym, ap, ◌∙◌, arith, List, ◌++◌, Bool, true, not, ltb,
  Bool-cases, inl, inr,
}
use app_bitcoin_new.Parser.{StepResult, error, need_more, complete, endless, ParsingStep}
use app_bitcoin_new.Parser.Run.{Resumed, Resumes}
use app_bitcoin_new.Rawtx.{stream_reader, remaining_len, chunks}
use app_bitcoin_new.Rawtx.Resume.{chunks-Resumes, WaitsAt, loop-WaitsAt}
use app_bitcoin_new.Rawtx.Combine.{counted-Resumes, sized-Resumes}
use app_bitcoin_new.Rawtx.Witnesses.{
  first_element, skip_chunk, skipped, skip_element, parse_witness_element, parse_witness_elements,
  parse_witness_field, parse_witness_fields,
}

module _ (len : ℕ) where
  finished : ℕ → Bool
  finished counter = not (ltb counter (len % 2 ^ 32))

  loop : ParsingStep (ℕ × Unit {0}) (List ℕ)
  loop = chunks stream_reader skip_chunk (len % 2 ^ 32) finished

  ends :
      (counter : ℕ)
      → counter < 2 ^ 32
      → remaining_len (len % 2 ^ 32) counter ≡ 0
      → finished counter ≡ true
  unfolding finished
  ends counter small e = ground arith

  loop-Resumes : Resumes loop
  unfolding loop
  loop-Resumes = chunks-Resumes skip_chunk (len % 2 ^ 32) finished ends

  skip_element-more :
      (bytes_read : ℕ) (s : List ℕ)
      → ltb bytes_read (len % 2 ^ 32) ≡ true
      → skip_element stream_reader len bytes_read s ≡ skipped (loop (bytes_read, tt) s)
  unfolding skip_element loop finished
  skip_element-more bytes_read s h = rw (h, skip_element) refl

  waits :
      (bytes_read : ℕ) (s : List ℕ)
      → WaitsAt skip_chunk (len % 2 ^ 32) finished ends bytes_read (loop (bytes_read, tt) s)
  unfolding loop chunks
  waits bytes_read s =
      loop-WaitsAt skip_chunk (len % 2 ^ 32) finished ends
        (suc (remaining_len (len % 2 ^ 32) bytes_read)) bytes_read tt s

  skipped-Resumed :
      (bytes_read : ℕ) (t : List ℕ) (o o' : StepResult × (ℕ × Unit {0}) × List ℕ)
      → ltb bytes_read (len % 2 ^ 32) ≡ true
      → WaitsAt skip_chunk (len % 2 ^ 32) finished ends bytes_read o
      → Resumed loop t o o'
      → Resumed (skip_element stream_reader len) t (skipped o) (skipped o')
  unfolding Resumed skipped WaitsAt finished
  skipped-Resumed bytes_read t (need_more, (c, u), s) o' h w r =
      let again : ltb c (len % 2 ^ 32) ≡ true = elim w [ inl e ↦ rw e h | inr e ↦ ground arith ] in
      ap skipped r ∙ sym (skip_element-more c (s ++ t) again)
  skipped-Resumed bytes_read t (error, state, s) o' h w r = ap skipped r
  skipped-Resumed bytes_read t (complete, state, s) o' h w r = ap skipped r
  skipped-Resumed bytes_read t (endless, state, s) o' h w r = ap skipped r

  skip_element-Resumes : Resumes (skip_element stream_reader len)
  skip_element-Resumes bytes_read s t = elim (Bool-cases (ltb bytes_read (len % 2 ^ 32))) [
    | inl h ↦
        rw (skip_element-more bytes_read s h, skip_element-more bytes_read (s ++ t) h)
          (skipped-Resumed bytes_read t _ _ h (waits bytes_read s)
            (loop-Resumes (bytes_read, tt) s t))
    | inr h ↦ unfold skip_element Resumed in rw h refl
  ]

pub parse_witness_fields-Resumes :
    (n_inputs : ℕ) → Resumes (parse_witness_fields stream_reader n_inputs)
unfolding parse_witness_fields parse_witness_field parse_witness_elements parse_witness_element
parse_witness_fields-Resumes n_inputs =
    let element : (counter : ℕ) → Resumes (parse_witness_element stream_reader counter) = λ counter.
      sized-Resumes (λ bytes_read. 0) (skip_element stream_reader) skip_element-Resumes in
    let elements : (n : ℕ) → Resumes (parse_witness_elements stream_reader n) =
      λ n. counted-Resumes (parse_witness_element stream_reader) (λ e. e) n element in
    let field : (counter : ℕ) → Resumes (parse_witness_field stream_reader counter) =
      λ counter. sized-Resumes first_element (parse_witness_elements stream_reader) elements in
    counted-Resumes (parse_witness_field stream_reader) (λ f. f) n_inputs field
