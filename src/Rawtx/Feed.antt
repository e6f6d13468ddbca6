-- ===== src/Rawtx/Feed.antt =====
-- A raw transaction that arrives in parts: `cb_process_data` against the parser on all bytes.
use app_bitcoin_new.Prelude.{
  ℕ, ◌+◌, ◌-◌, ◌≤◌, ◌≡◌, refl, ap, ◌∙◌, arith, List, [], ◌∷◌, Option, none, some, true, false,
  length, drop, take,
}
use app_bitcoin_new.Buffer.{Buffer}
use app_bitcoin_new.Buffer.Invariant.{IsValid}
use app_bitcoin_new.Buffer.Stream.{remaining, length-remaining}
use app_bitcoin_new.Parser.{
  Dbuffer, StepResult, error, need_more, complete, endless, ParsingStep, next_step, run_from,
  parser_run, parser_consolidate_buffers,
}
use app_bitcoin_new.Parser.Stream.{stream}
use app_bitcoin_new.Parser.Run.{Returns, drop-next}
use app_bitcoin_new.Parser.Consolidate.{parser_consolidate_buffers-remaining}
use app_bitcoin_new.Rawtx.{dbuffer_reader, stream_reader}
use app_bitcoin_new.Rawtx.Transaction.{RawtxState, parse_rawtx_steps}
use app_bitcoin_new.Rawtx.Buffers.{IsPair}
use app_bitcoin_new.Rawtx.Process.{store_size, ParseState, consolidated, after_run}

abbrev pub Outcome : Type 0
Outcome = StepResult × (ℕ × RawtxState) × List ℕ

-- The parser on all bytes at once.
abbrev pub parse_all : Option ℕ → ℕ × RawtxState → List ℕ → Outcome
parse_all output_index = parser_run (parse_rawtx_steps stream_reader output_index)

-- The state between two parts, for the outcome of the parser on the bytes so far.
unfoldable pub Represents : Option ℕ → Outcome → ParseState → Type 0
Represents i (need_more, context, s) st =
    (st.parser_error ≡ false)
    × (st.parser_context ≡ context)
    × (length st.store ≡ store_size)
    × (st.store_data_length ≤ store_size)
    × (take st.store_data_length st.store ≡ s)
Represents i (complete, context, s) st =
    (st.parser_error ≡ false)
    × (st.parser_context ≡ context)
    × (length st.store ≡ store_size)
    × (st.store_data_length ≤ store_size)
    × (drop context.0 (parse_rawtx_steps dbuffer_reader i) ≡ [])
Represents i (error, context, s) st = st.parser_error ≡ true
Represents i (endless, context, s) st = ⊥

-- What the parser leaves for the next part fits in the store.
unfoldable pub FitsStore : Outcome → Type 0
FitsStore (need_more, context, s) = length s ≤ store_size
FitsStore (endless, context, s) = Unit {0}
FitsStore (error, context, s) = Unit {0}
FitsStore (complete, context, s) = Unit {0}

-- The context behind the last step.
unfoldable pub DoneAt :
    {State : Type 0}
    → List (ParsingStep State Dbuffer)
    → StepResult × (ℕ × State) × Dbuffer
    → Type 0
DoneAt steps (complete, context, d) = drop context.0 steps ≡ []
DoneAt steps (need_more, context, d) = Unit {0}
DoneAt steps (error, context, d) = Unit {0}
DoneAt steps (endless, context, d) = Unit {0}

module _ {State : Type 0} (steps : List (ParsingStep State Dbuffer)) where
  next_step-DoneAt :
      (r : StepResult) (context : ℕ × State) (d : Dbuffer) (o : StepResult × (ℕ × State) × Dbuffer)
      → DoneAt steps o
      → DoneAt steps (next_step r (λ q. (q, context, d)) o)
  unfolding next_step DoneAt
  next_step-DoneAt error context d o h = tt
  next_step-DoneAt need_more context d o h = tt
  next_step-DoneAt endless context d o h = tt
  next_step-DoneAt complete context d o h = h

  run_from-DoneAt :
      (fs : List (ParsingStep State Dbuffer)) (cur : ℕ) (state : State) (d : Dbuffer)
      → drop cur steps ≡ fs
      → DoneAt steps (run_from fs cur state d)
  unfolding run_from DoneAt
  run_from-DoneAt [] cur state d e = e
  run_from-DoneAt (f ∷ fs) cur state d e =
      let (r, state', d') = f state d in
      next_step-DoneAt r (cur, state') d' _
        (run_from-DoneAt fs (cur + 1) state' d' (drop-next cur steps f fs e))

  pub parser_run-DoneAt :
      (context : ℕ × State) (d : Dbuffer) → DoneAt steps (parser_run steps context d)
  unfolding parser_run
  parser_run-DoneAt (cur, state) d = run_from-DoneAt (drop cur steps) cur state d refl

unfoldable pub IsAfter : Option ℕ → Outcome → Option ParseState → Type 0
IsAfter i o none = ⊥
IsAfter i o (some st) = Represents i o st

from_start : (b : Buffer) → b.offset ≡ 0 → take b.size b.ptr ≡ remaining b
from_start b start = let size : b.size - 0 ≡ b.size = omega arith in rw (start, size) refl

unfoldable pub view : StepResult × (ℕ × RawtxState) × Dbuffer → Outcome
view (r, context, d) = (r, context, stream d)

module _ (i : Option ℕ) (st : ParseState) (stored : length st.store ≡ store_size)
    (few : st.store_data_length ≤ store_size) (ok : st.parser_error ≡ false) where
  consolidated-Represents :
      (context : ℕ × RawtxState) (d d' : Dbuffer)
      → parser_consolidate_buffers d store_size ≡ some d'
      → remaining d'.first ≡ stream d
      → IsValid d'.first
      → d'.first.offset ≡ 0
      → length d'.first.ptr ≡ length d.first.ptr
      → IsPair st.store d
      → length (stream d) ≤ store_size
      → IsAfter i (need_more, context, stream d) (after_run st need_more context d)
  unfolding Represents IsAfter after_run consolidated
  consolidated-Represents context d d' e rest v start len p f =
      let c : consolidated d ≡ d' = rw (e, consolidated) refl in
      let few' : length (remaining d'.first) ≡ d'.first.size - d'.first.offset =
        length-remaining d'.first v in
      let stored' : length d'.first.ptr ≡ store_size =
        len ∙ (ap (λ (l : List ℕ). length l) p.same ∙ stored) in
      let bytes : take d'.first.size d'.first.ptr ≡ stream d = from_start d'.first start ∙ rest in
      rw (c, after_run, IsAfter)
        (ok, refl, stored', omega (arith, few', ap (λ (l : List ℕ). length l) rest), bytes)

  pub after_run-IsAfter :
      (o : StepResult × (ℕ × RawtxState) × Dbuffer)
      → IsPair st.store o.2
      → DoneAt (parse_rawtx_steps dbuffer_reader i) o
      → Returns o.0
      → FitsStore (view o)
      → IsAfter i (view o) (after_run st o.0 o.1 o.2)
  unfolding Represents FitsStore DoneAt IsAfter after_run view Returns
  after_run-IsAfter (need_more, context, d) p done r f =
      let room : store_size ≤ length d.first.ptr =
        omega (arith, stored, ap (λ (l : List ℕ). length l) p.same) in
      let (d', e, rest, v, start, len) =
        parser_consolidate_buffers-remaining d store_size p.valid room f in
      consolidated-Represents context d d' e rest v start len p f
  after_run-IsAfter (complete, context, d) p done r f = (ok, refl, stored, few, done)
  after_run-IsAfter (error, context, d) p done r f = refl
  after_run-IsAfter (endless, context, d) p done r f = absurd r
