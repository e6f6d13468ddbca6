-- ===== src/Parser.antt =====
-- common/parser.c and common/parser.h: reading from two buffers one after the other, and parsers that run
-- step by step and stop where data is missing.
pub mod Stream
pub mod Varint
pub mod Run
pub mod Consolidate
mod Tests
use app_bitcoin_new.Prelude.{
  ℕ, zero, suc, ◌+◌, ◌-◌, List, [], ◌∷◌, ◌++◌, Option, none, some, Bool, true, false, not, take,
  drop, put_at, replicate, ltb, leb, ◌==◌, if◌then◌else◌,
}
use app_bitcoin_new.Bytes.{at, read_u16_be, read_u16_le, read_u32_be, read_u32_le, read_u64_le}
use app_bitcoin_new.Buffer.{
  Buffer, Endianness, be, le, add_size, sub_size, buffer_can_read, buffer_get_cur,
  buffer_read_bytes,
}

-- `buffer_t *buffers[2]`, of two different memory regions
pub record Dbuffer : Type 0 where
  pub first : Buffer
  pub second : Buffer

unfoldable pub dbuffer_get_length : Dbuffer → ℕ
dbuffer_get_length d =
    add_size (sub_size d.first.size d.first.offset) (sub_size d.second.size d.second.offset)

unfoldable pub dbuffer_can_read : Dbuffer → ℕ → Bool
dbuffer_can_read d n = leb n (dbuffer_get_length d)

-- `if (n > 0) buffer_read_bytes(...)`: the bytes that are copied, and the buffer.
unfoldable pub read_part : Buffer → ℕ → List ℕ × Buffer
read_part b n =
    if ltb 0 n then elim (buffer_read_bytes b n) [ none ↦ ([], b) | some r ↦ r ] else ([], b)

-- The bytes that are copied to `out`, and the buffers; `none` is the result false, where nothing changes.
unfoldable pub dbuffer_read_bytes : Dbuffer → ℕ → Option (List ℕ × Dbuffer)
dbuffer_read_bytes d n =
    let length0 = sub_size d.first.size d.first.offset in
    let length1 = sub_size d.second.size d.second.offset in
    if ltb (add_size length0 length1) n
    then none
    else let n0 = if leb n length0 then n else length0 in
      let n1 = sub_size n n0 in
      let (out0, first) = read_part d.first n0 in
      let (out1, second) = read_part d.second n1 in
      some (out0 ++ out1, record { first = first; second = second })

unfoldable pub dbuffer_read_u8 : Dbuffer → Option (ℕ × Dbuffer)
dbuffer_read_u8 d = elim (dbuffer_read_bytes d 1) [
  | none ↦ none
  | some (out, d') ↦ some (at out 0, d')
]

-- What a read leaves where its result is not looked at.
unfoldable pub bytes_or_same : {S : Type 0} → S → Option (List ℕ × S) → List ℕ × S
bytes_or_same d none = ([], d)
bytes_or_same d (some r) = r

unfoldable pub dbuffer_read_u16 : Dbuffer → Endianness → Option (ℕ × Dbuffer)
dbuffer_read_u16 d endianness =
    if not (dbuffer_can_read d 2)
    then none
    else let (tmp, d') = bytes_or_same d (dbuffer_read_bytes d 2) in
      some (elim endianness [ be ↦ read_u16_be tmp 0 | le ↦ read_u16_le tmp 0 ], d')

unfoldable pub dbuffer_read_u32 : Dbuffer → Endianness → Option (ℕ × Dbuffer)
dbuffer_read_u32 d endianness =
    if not (dbuffer_can_read d 4)
    then none
    else let (tmp, d') = bytes_or_same d (dbuffer_read_bytes d 4) in
      some (elim endianness [ be ↦ read_u32_be tmp 0 | le ↦ read_u32_le tmp 0 ], d')

-- The first byte of the buffers, which is left there.
unfoldable pub peek_first : Dbuffer → ℕ
peek_first d =
    if buffer_can_read d.first 1
    then at d.first.ptr d.first.offset
    else at d.second.ptr d.second.offset

-- The length behind the prefix.
unfoldable pub varint_len : ℕ → ℕ
varint_len first_byte =
    if first_byte == 0xfd
    then 2
    else (if first_byte == 0xfe then 4 else (if first_byte == 0xff then 8 else 0))

-- `data` is zeroed before the bytes are read to its front.
unfoldable pub dbuffer_read_varint : Dbuffer → Option (ℕ × Dbuffer)
dbuffer_read_varint d =
    if not (dbuffer_can_read d 1)
    then none
    else let len = varint_len (peek_first d) in
      if not (dbuffer_can_read d (1 + len))
      then none
      else let (skipped, d1) = bytes_or_same d (dbuffer_read_bytes d 1) in
        if leb (at skipped 0) 0xfc
        then some (at skipped 0, d1)
        else let (bytes, d2) = bytes_or_same d1 (dbuffer_read_bytes d1 len) in
          some (read_u64_le (put_at (replicate 8 0) 0 bytes) 0, d2)

-- `none` is the result false; the second buffer is left as it is.
unfoldable pub parser_consolidate_buffers : Dbuffer → ℕ → Option Dbuffer
parser_consolidate_buffers d max_size =
    let length0 = sub_size d.first.size d.first.offset in
    let length1 = sub_size d.second.size d.second.offset in
    if ltb max_size (add_size length0 length1)
    then none
    else let ptr0 = put_at d.first.ptr 0 (take length0 (buffer_get_cur d.first)) in
      let ptr1 = put_at ptr0 length0 (take length1 (buffer_get_cur d.second)) in
      some (record d {
        first = record d.first { ptr = ptr1; offset = 0; size = add_size length0 length1 };
      })

-- The result of a step or of a parser: negative, 0 and positive. `endless` stands for a step that does
-- not return.
pub data StepResult : Type 0 where
  error need_more complete endless : StepResult

-- A step gets the state and what it reads from, and leaves both.
abbrev pub ParsingStep : Type 0 → Type 0 → Type 0
ParsingStep State S = State → S → StepResult × State × S

-- `if (step_result <= 0) return step_result;`, and otherwise the rounds behind.
unfoldable pub next_step {ℓ} : {A : Type ℓ} → StepResult → (StepResult → A) → A → A
next_step error stop go = stop error
next_step need_more stop go = stop need_more
next_step endless stop go = stop endless
next_step complete stop go = go

module _ {State S : Type 0} where
  -- The rounds from `cur_step` on, over the steps that are left; the context is `cur_step` and the state.
  unfoldable pub run_from :
      List (ParsingStep State S) → ℕ → State → S → StepResult × (ℕ × State) × S
  run_from [] cur_step state s = (complete, (cur_step, state), s)
  run_from (step_fn ∷ steps) cur_step state s =
      let (step_result, state', s') = step_fn state s in
      next_step step_result (λ r. (r, (cur_step, state'), s'))
        (run_from steps (cur_step + 1) state' s')

  unfoldable pub parser_run :
      List (ParsingStep State S) → ℕ × State → S → StepResult × (ℕ × State) × S
  parser_run parsing_steps (cur_step, state) s =
      run_from (drop cur_step parsing_steps) cur_step state s
