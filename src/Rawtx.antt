-- ===== src/Rawtx.antt =====
-- handler/lib/psbt_parse_rawtx.c: a parser of raw transactions that reads the input in parts, hashes it
-- without the witnesses, and keeps one output. The state of the device's hash is the bytes that it was
-- updated with.
pub mod Combine
pub mod Inputs
pub mod Outputs
pub mod Witnesses
pub mod Transaction
pub mod Resume
pub mod Parts
pub mod Fields
pub mod Whole
pub mod Returns
pub mod Total
pub mod Buffers
pub mod Agree
pub mod OnBuffers
pub mod Process
pub mod Feed
pub mod InParts
pub mod Call
pub mod Sound
mod Tests
mod CallTests
use app_bitcoin_new.Prelude.{
  ℕ, zero, suc, ◌+◌, ◌-◌, ◌%◌, ◌^◌, List, [], ◌∷◌, ◌++◌, Option, none, some, Bool, true, false, min,
  length, ltb, ◌==◌, if◌then◌else◌,
}
use app_bitcoin_new.Bytes.{at}
use app_bitcoin_new.Buffer.Stream.{take_bytes}
use app_bitcoin_new.Parser.{
  StepResult, error, need_more, complete, endless, ParsingStep, next_step, Dbuffer,
  dbuffer_can_read, dbuffer_read_bytes, dbuffer_read_varint, peek_first,
}
use app_bitcoin_new.Parser.Varint.{take_varint}

-- What the steps call of common/parser.c: `S` stands for the pair of buffers.
pub record Reader (S : Type 0) : Type 0 where
  pub can_read : S → ℕ → Bool
  pub read_bytes : S → ℕ → Option (List ℕ × S)
  pub read_varint : S → Option (ℕ × S)
  pub peek : S → ℕ

abbrev pub dbuffer_reader : Reader Dbuffer
dbuffer_reader = record {
  can_read = dbuffer_can_read;
  read_bytes = dbuffer_read_bytes;
  read_varint = dbuffer_read_varint;
  peek = peek_first;
}

-- The same on the bytes that remain.
abbrev pub stream_reader : Reader (List ℕ)
stream_reader = record {
  can_read = λ s n. if ltb (length s) n then false else true;
  read_bytes = take_bytes;
  read_varint = take_varint;
  peek = λ s. at s 0;
}

-- `bool result = ...; if (result) { update } return result;`
module _ {S State : Type 0} (R : Reader S) where
  unfoldable pub read_step : ℕ → (List ℕ → State → State) → ParsingStep State S
  read_step n update state s = elim (R.read_bytes s n) [
    | none ↦ (need_more, state, s)
    | some (bytes, s') ↦ (complete, update bytes state, s')
  ]

  unfoldable pub varint_step : (ℕ → State → State) → ParsingStep State S
  varint_step update state s = elim (R.read_varint s) [
    | none ↦ (need_more, state, s)
    | some (value, s') ↦ (complete, update value state, s')
  ]

-- A step that only sets up the state.
abbrev pub init_step : {S State : Type 0} → (State → State) → ParsingStep State S
init_step update state s = (complete, update state, s)

-- `size - counter` in 32 bits
abbrev pub remaining_len : ℕ → ℕ → ℕ
remaining_len size counter = (size + 2 ^ 32 - counter % 2 ^ 32) % 2 ^ 32

-- `MIN(32, remaining_len)`, where a number from 2^31 on is negative as an `int`, and as a `size_t` again
-- that number.
unfoldable pub data_len : ℕ → ℕ → ℕ
data_len size counter = let r = remaining_len size counter in if ltb r (2 ^ 31) then min 32 r else r

-- The loops over chunks of at most 32 bytes. `on_chunk` does what the round does with the chunk at a
-- counter, and says whether the loop goes on.
module _ {S A : Type 0} (R : Reader S) (on_chunk : ℕ → List ℕ → A → Bool × A) (size : ℕ)
    (finished : ℕ → Bool) where
  unfoldable pub chunk_loop : ℕ → ParsingStep (ℕ × A) S
  chunk_loop zero (counter, a) s = (endless, (counter, a), s)
  chunk_loop (suc fuel) (counter, a) s = elim (R.read_bytes s (data_len size counter)) [
    | none ↦ (need_more, (counter, a), s)
    | some (bytes, s') ↦
        let (go_on, a') = on_chunk counter bytes a in
        let counter' = (counter + data_len size counter) % 2 ^ 32 in
        elim go_on [
          | false ↦ (error, (counter, a'), s')
          | true ↦ elim (finished counter') [
            | true ↦ (complete, (counter', a'), s')
            | false ↦ chunk_loop fuel (counter', a') s'
          ]
        ]
  ]

  -- Each round but the last takes bytes off what remains.
  unfoldable pub chunks : ParsingStep (ℕ × A) S
  chunks (counter, a) s = chunk_loop (suc (remaining_len size counter)) (counter, a) s

-- The bytes that the device's hash was updated with, beside the rest of a state.
unfoldable pub hash_bytes : {A : Type 0} → List ℕ → List ℕ × A → List ℕ × A
hash_bytes bytes (hashed, a) = (hashed ++ bytes, a)

-- A step on a part of the state; what it does may depend on the other parts.
unfoldable pub on_part :
    {State P S : Type 0}
    → (State → P)
    → (P → State → State)
    → (State → ParsingStep P S)
    → ParsingStep State S
on_part get set f state s = let (r, p, s') = f state (get state) s in (r, set p state, s')

-- `bool result = parser_run(...)`: a negative result is true, and true is 1.
unfoldable pub as_bool : StepResult → StepResult
as_bool error = complete
as_bool need_more = need_more
as_bool complete = complete
as_bool endless = endless

unfoldable pub with_bool : {State S : Type 0} → ParsingStep State S → ParsingStep State S
with_bool f state s = let (r, state', s') = f state s in (as_bool r, state', s')

module _ {S A : Type 0} (body : ℕ → ParsingStep A S) (reset : A → A) where
  -- The rounds of `counted` that are left.
  unfoldable pub counted_rounds : ℕ → ParsingStep (ℕ × A) S
  counted_rounds zero state s = (complete, state, s)
  counted_rounds (suc rounds) (counter, a) s =
      let (r, a', s') = body counter a s in
      next_step r (λ stop. (stop, (counter, a'), s'))
        (counted_rounds rounds (counter + 1, reset a') s')

  -- `while (counter < n) { body; ++counter; reset }`, where a result of the body but 1 is returned.
  unfoldable pub counted : ℕ → ParsingStep (ℕ × A) S
  counted n (counter, a) s = counted_rounds (n - counter) (counter, a) s

-- A size that is read once, with what is read after it.
pub record Sized (A : Type 0) : Type 0 where
  pub is_read : Bool
  pub size : ℕ
  pub inner : A

module _ {S A : Type 0} (R : Reader S) (start : A → A) (body : ℕ → ParsingStep A S) where
  unfoldable pub sized_body : ℕ → ParsingStep (Sized A) S
  sized_body size state s =
      let (r, a, s') = body size state.inner s in
      let now : Sized A = record { is_read = true; size = size; inner = a } in
      next_step r (λ stop. (stop, now, s')) (complete, record now { is_read = false }, s')

  -- `if (!is_read) { read the size; is_read = true; start }`, the body, and `is_read = false`.
  unfoldable pub sized : ParsingStep (Sized A) S
  sized state s = elim state.is_read [
    | true ↦ sized_body state.size state s
    | false ↦ elim (R.read_varint s) [
      | none ↦ (need_more, state, s)
      | some (value, s') ↦
          sized_body (value % 2 ^ 32) (record state { inner = start state.inner }) s'
    ]
  ]
