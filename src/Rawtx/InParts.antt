-- ===== src/Rawtx/InParts.antt =====
-- A raw transaction that arrives in parts: `cb_process_data` with what came before.
use app_bitcoin_new.Prelude.{
  ℕ, ◌+◌, ◌-◌, ◌^◌, ◌≤◌, ◌<◌, ◌≡◌, refl, sym, ap, ◌∙◌, arith, List, [], ◌∷◌, ◌++◌, append_assoc,
  append-nil, Option, none, some, Bool, true, false, if◌then◌else◌, length, drop, take, All,
}
use mathlib.Core.Path.{subst}
use app_bitcoin_new.Buffer.{Buffer, buffer_create}
use app_bitcoin_new.Buffer.Invariant.{IsValid}
use app_bitcoin_new.Buffer.Stream.{remaining}
use app_bitcoin_new.Client.Stream.{calls}
use app_bitcoin_new.Buffer.Stream.{all_remaining}
use app_bitcoin_new.Parser.{
  Dbuffer, StepResult, error, need_more, complete, endless, ParsingStep, next_step, run_from,
  parser_run,
}
use app_bitcoin_new.Parser.Run.{Returns, Resumed}
use app_bitcoin_new.Buffer.Stream.{take_bytes}
use app_bitcoin_new.Rawtx.{read_step, dbuffer_reader}
use app_bitcoin_new.Rawtx.Transaction.{RawtxState, parse_rawtx_steps, parse_rawtx_version}
use app_bitcoin_new.Rawtx.Returns.{parse_rawtx_steps-Returns}
use app_bitcoin_new.Rawtx.Whole.{parse_rawtx_steps-Resumes}
use app_bitcoin_new.Rawtx.Buffers.{IsPair}
use app_bitcoin_new.Rawtx.Agree.{parser_run-Agrees}
use app_bitcoin_new.Rawtx.OnBuffers.{steps_Agree}
use app_bitcoin_new.Rawtx.Process.{
  store_size, ParseState, after_run, cb_process_data, process_parts,
}
use app_bitcoin_new.Rawtx.Feed.{
  Outcome, parse_all, Represents, FitsStore, IsAfter, view, parser_run-DoneAt, after_run-IsAfter,
}

-- A call with a part, before what came of the bytes before it is told apart.
module _ (i : Option ℕ) (part : Buffer) (v : IsValid part) (small : part.size + store_size < 2 ^ 32)
    (st : ParseState) where
  pair : Dbuffer
  pair = record { first = buffer_create 0 st.store st.store_data_length; second = part }

  pair-IsPair :
      length st.store ≡ store_size → st.store_data_length ≤ store_size → IsPair st.store pair
  unfolding pair buffer_create
  pair-IsPair stored few = record {
    valid = record {
      first = record { within = omega arith; region = omega (arith, stored); small = omega arith };
      second = v;
      small = omega arith;
    };
    same = refl;
  }

  run : StepResult × (ℕ × RawtxState) × Dbuffer
  run = parser_run (parse_rawtx_steps dbuffer_reader i) st.parser_context pair

  keeps_going :
      (o : Outcome)
      → st.parser_error ≡ false
      → IsAfter i o (after_run st run.0 run.1 run.2)
      → IsAfter i o (cb_process_data i part st)
  unfolding cb_process_data run pair
  keeps_going o ok h =
      subst (λ (b : Bool). IsAfter i o (if b then some st else after_run st run.0 run.1 run.2))
        (sym ok) h

  stops :
      (o : Outcome)
      → st.parser_error ≡ true
      → Represents i o st
      → IsAfter i o (cb_process_data i part st)
  unfolding cb_process_data run pair IsAfter
  stops o failed h =
      subst (λ (b : Bool). IsAfter i o (if b then some st else after_run st run.0 run.1 run.2))
        (sym failed) h

  run_part :
      length st.store ≡ store_size
      → st.store_data_length ≤ store_size
      → st.parser_error ≡ false
      → FitsStore
          (parse_all i st.parser_context (take st.store_data_length st.store ++ remaining part))
      → IsAfter i
          (parse_all i st.parser_context (take st.store_data_length st.store ++ remaining part))
          (cb_process_data i part st)
  unfolding pair view buffer_create run
  run_part stored few ok f =
      let p = pair-IsPair stored few in
      let h = parser_run-Agrees st.store _ _ (steps_Agree st.store i) st.parser_context pair p in
      let len : st.store_data_length - 0 ≡ st.store_data_length = omega arith in
      let e : view run
          ≡ parse_all i st.parser_context (take st.store_data_length st.store ++ remaining part) =
        h.same
        ∙ ap (λ (n : ℕ). parse_all i st.parser_context (take n st.store ++ remaining part)) len in
      keeps_going _ ok (
        subst (λ (q : Outcome). IsAfter i q (after_run st run.0 run.1 run.2)) e
          (after_run-IsAfter i st stored few ok run h.kept
            (parser_run-DoneAt _ st.parser_context pair)
            (subst (λ (q : Outcome). Returns q.0) (sym e)
              (parse_rawtx_steps-Returns i st.parser_context _))
            (subst FitsStore (sym e) f)))

  -- `parser_run` behind the last step.
  parser_run-end :
      (steps : List (ParsingStep RawtxState Dbuffer)) (context : ℕ × RawtxState) (d : Dbuffer)
      → drop context.0 steps ≡ []
      → parser_run steps context d ≡ (complete, context, d)
  unfolding parser_run run_from
  parser_run-end steps context d e = rw e refl

  process_part :
      (o o' : Outcome)
      → Resumed (parse_all i) (remaining part) o o'
      → Represents i o st
      → FitsStore o'
      → IsAfter i o' (cb_process_data i part st)
  unfolding Resumed Represents IsAfter after_run run
  process_part (need_more, context, s) o' r (ok, c, stored, few, bytes) f =
      let e : o'
          ≡ parse_all i st.parser_context (take st.store_data_length st.store ++ remaining part) =
        r ∙ rw (c, bytes) refl in
      subst (λ (q : Outcome). IsAfter i q (cb_process_data i part st)) (sym e)
        (run_part stored few ok (subst FitsStore e f))
  process_part (complete, context, s) o' r (ok, c, stored, few, done) f =
      let e =
        parser_run-end (parse_rawtx_steps dbuffer_reader i) st.parser_context pair (rw c done) in
      keeps_going o' ok (
        subst
          (λ (q : StepResult × (ℕ × RawtxState) × Dbuffer). IsAfter i o' (after_run st q.0 q.1 q.2))
          (sym e)
          (subst (λ (q : Outcome). IsAfter i q (after_run st complete st.parser_context pair))
            (sym r) (ok, c, stored, few, done)))
  process_part (error, context, s) o' r failed f =
      stops o' failed (subst (λ (q : Outcome). Represents i q st) (sym r) failed)
  process_part (endless, context, s) o' r h f = absurd h

-- Buffers of at most 2^32 - 33 bytes.
abbrev pub IsPart : Buffer → Type 0
IsPart part = IsValid part × (part.size + store_size < 2 ^ 32)

-- After each part, what the parser leaves fits in the store.
unfoldable pub AllFit : Option ℕ → ℕ × RawtxState → List ℕ → List Buffer → Type 0
AllFit i context before [] = Unit {0}
AllFit i context before (part ∷ parts) =
    FitsStore (parse_all i context (before ++ remaining part))
    × AllFit i context (before ++ remaining part) parts

module _ (i : Option ℕ) (context : ℕ × RawtxState) where
  process_parts-IsAfter :
      (before : List ℕ) (parts : List Buffer) (st : ParseState)
      → All IsPart parts
      → AllFit i context before parts
      → Represents i (parse_all i context before) st
      → IsAfter i (parse_all i context (before ++ all_remaining parts)) (process_parts i parts st)
  unfolding process_parts calls AllFit IsAfter
  process_parts-IsAfter before [] st v f h = rw (append-nil before) h
  process_parts-IsAfter before (part ∷ parts) st ((v, small), vs) (f, fs) h =
      next (cb_process_data i part st)
        (process_part i part v small st _ _
          (parse_rawtx_steps-Resumes i context before (remaining part)) h f)
        (λ st' h'. process_parts-IsAfter (before ++ remaining part) parts st' vs fs h')
    where
      next :
          (o : Option ParseState)
          → IsAfter i (parse_all i context (before ++ remaining part)) o
          → ((st' : ParseState)
              → Represents i (parse_all i context (before ++ remaining part)) st'
              → IsAfter i
                  (parse_all i context ((before ++ remaining part) ++ all_remaining parts))
                  (process_parts i parts st'))
          → IsAfter i
              (parse_all i context (before ++ (remaining part ++ all_remaining parts)))
              (elim o [ none ↦ none | some st' ↦ process_parts i parts st' ])
      next none h' again = absurd h'
      next (some st') h' again =
          rw⁻¹ (append_assoc before (remaining part) (all_remaining parts)) (again st' h')

abbrev pub first_state : List ℕ → RawtxState → ParseState
first_state store state = record {
  store = store;
  store_data_length = 0;
  parser_context = (0, state);
  parser_error = false;
}

parse_nothing :
    (i : Option ℕ) (state : RawtxState) → parse_all i (0, state) [] ≡ (need_more, (0, state), [])
unfolding parser_run run_from next_step parse_rawtx_version read_step take_bytes
parse_nothing i state = refl

-- Where a raw transaction arrives in valid buffers of less than 2^32 - 32 bytes, and what the parser leaves
-- where it waits for more data fits in 32 bytes after each of them:
-- the calls return, and after the calls of `cb_process_data` with them, the state is the one that the parser reaches on all bytes
-- at once. An error is an error; and otherwise the hash, the outputs and the step are the same, and where
-- it waits for more data, the store holds the bytes that it left.
pub process_parts-Represents :
    (i : Option ℕ) (state : RawtxState) (store : List ℕ) (parts : List Buffer)
    → length store ≡ store_size
    → All IsPart parts
    → AllFit i (0, state) [] parts
    → IsAfter i
        (parse_all i (0, state) (all_remaining parts))
        (process_parts i parts (first_state store state))
unfolding Represents
process_parts-Represents i state store parts stored v f =
    process_parts-IsAfter i (0, state) [] parts (first_state store state) v f
      (subst (λ (o : Outcome). Represents i o (first_state store state))
        (sym (parse_nothing i state)) (refl, refl, stored, omega arith, refl))
