-- ===== src/Rawtx/Witnesses.antt =====
-- handler/lib/psbt_parse_rawtx.c: the parser of the witnesses, whose data is not used.
use app_bitcoin_new.Prelude.{ℕ, ◌%◌, ◌^◌, List, Bool, true, false, not, ltb, if◌then◌else◌}
use app_bitcoin_new.Parser.{StepResult, complete, ParsingStep}
use app_bitcoin_new.Rawtx.{Reader, Sized, counted, chunks, sized}

-- `cur_wit_elem_len` with its flag, and `cur_wit_el_bytes_read`.
abbrev pub WitnessElement : Type 0
WitnessElement = Sized ℕ

-- `cur_wit_stack_elements` with its flag; `wit_stack_el_counter` and the current element.
abbrev pub WitnessField : Type 0
WitnessField = Sized (ℕ × WitnessElement)

unfoldable pub first_element : ℕ × WitnessElement → ℕ × WitnessElement
first_element (_, element) = (0, record element { is_read = false })

unfoldable pub skip_chunk : ℕ → List ℕ → Unit {0} → Bool × Unit {0}
skip_chunk counter bytes u = (true, u)

module _ {S : Type 0} where
  unfoldable pub skipped : StepResult × (ℕ × Unit {0}) × S → StepResult × ℕ × S
  skipped (r, (bytes_read, _), s) = (r, bytes_read, s)

module _ {S : Type 0} (R : Reader S) where
  -- `while (cur_wit_el_bytes_read < cur_wit_elem_len)`: the loop tests before its first round as well.
  unfoldable pub skip_element : ℕ → ParsingStep ℕ S
  skip_element len bytes_read s =
      if ltb bytes_read (len % 2 ^ 32)
      then skipped (
          chunks R skip_chunk (len % 2 ^ 32) (λ counter. not (ltb counter (len % 2 ^ 32)))
            (bytes_read, tt) s)
      else (complete, bytes_read, s)

  unfoldable pub parse_witness_element : ℕ → ParsingStep WitnessElement S
  parse_witness_element el_counter = sized R (λ bytes_read. 0) skip_element

  unfoldable pub parse_witness_elements : ℕ → ParsingStep (ℕ × WitnessElement) S
  parse_witness_elements cur_wit_stack_elements =
      counted parse_witness_element (λ element. element) cur_wit_stack_elements

  unfoldable pub parse_witness_field : ℕ → ParsingStep WitnessField S
  parse_witness_field wit_counter = sized R first_element parse_witness_elements

  -- The loop over the fields, from `wit_counter` on.
  unfoldable pub parse_witness_fields : ℕ → ParsingStep (ℕ × WitnessField) S
  parse_witness_fields n_inputs = counted parse_witness_field (λ field. field) n_inputs
