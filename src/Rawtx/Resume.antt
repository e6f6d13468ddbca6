-- ===== src/Rawtx/Resume.antt =====
-- Reads and loops on a stream that arrives in parts.
use app_bitcoin_new.Prelude.{
  ℕ, zero, suc, ◌+◌, ◌-◌, ◌%◌, ◌^◌, ◌≤◌, ◌<◌, ◌≡◌, refl, sym, ◌∙◌, arith, List, [], ◌∷◌, ◌++◌,
  Option, none, some, Bool, true, false, length, length-append, take-append_fits, drop-append_fits,
  ltb, leb, Bool-cases, Option-cases, ◌⊎◌, inl, inr,
}
use mathlib.Core.Path.{subst}
use native.Mathlib.Decide.{dec_lt}
use app_bitcoin_new.Buffer.Stream.{take_bytes}
use app_bitcoin_new.Parser.{
  StepResult, error, need_more, complete, endless, ParsingStep, varint_len,
}
use app_bitcoin_new.Parser.Varint.{take_varint}
use app_bitcoin_new.Parser.Run.{Returns, Resumed, Resumes, Resumed-at}
use app_bitcoin_new.Rawtx.{
  init_step, stream_reader, read_step, varint_step, remaining_len, data_len, chunk_loop, chunks,
}

-- What a read gives of a stream, with more behind it.
unfoldable pub Extends : {A : Type 0} → List ℕ → Option (A × List ℕ) → Option (A × List ℕ) → Type 0
Extends t none o = Unit {0}
Extends t (some (a, s)) o = o ≡ some (a, s ++ t)

pub take_bytes-Extends : (s t : List ℕ) (n : ℕ) → Extends t (take_bytes s n) (take_bytes (s ++ t) n)
unfolding take_bytes Extends
take_bytes-Extends s t n = elim (Bool-cases (ltb (length s) n)) [
  | inl short ↦ rw (short, Extends) tt
  | inr enough ↦
      let enough' : ltb (length (s ++ t)) n ≡ false = ground (arith, length-append s t) in
      rw (enough, enough', Extends)
        (rw (take-append_fits n s t (ground arith), drop-append_fits n s t (ground arith)) refl)
]

pub take_varint-Extends : (s t : List ℕ) → Extends t (take_varint s) (take_varint (s ++ t))
unfolding take_varint Extends
take_varint-Extends [] t = tt
take_varint-Extends (x ∷ s) t =
    let one : ltb (suc (length s)) 1 ≡ false = ground arith in
    let one' : ltb (suc (length (s ++ t))) 1 ≡ false = ground arith in
    let len = varint_len x in
    elim (Bool-cases (ltb (suc (length s)) (1 + len))) [
      | inl cut ↦ rw (one, cut, Extends) tt
      | inr whole ↦
          let whole' : ltb (suc (length (s ++ t))) (1 + len) ≡ false =
            ground (arith, length-append s t) in
          let fits : len ≤ length s = ground arith in
          elim (Bool-cases (leb x 0xfc)) [
            | inl small ↦ rw (one, one', whole, whole', small, Extends) refl
            | inr big ↦
                rw
                  (
                    one,
                    one',
                    whole,
                    whole',
                    big,
                    Extends,
                    take-append_fits len s t fits,
                    drop-append_fits len s t fits,
                  )
                  refl
          ]
    ]

-- A read that gets what it asks for gets it from a longer stream as well.
pub take_bytes-longer :
    (s t : List ℕ) (n : ℕ) (bytes s' : List ℕ)
    → take_bytes s n ≡ some (bytes, s')
    → take_bytes (s ++ t) n ≡ some (bytes, s' ++ t)
unfolding Extends
take_bytes-longer s t n bytes s' e =
    subst (λ (o : Option (List ℕ × List ℕ)). Extends t o (take_bytes (s ++ t) n)) e
      (take_bytes-Extends s t n)

pub take_varint-longer :
    (s t : List ℕ) (value : ℕ) (s' : List ℕ)
    → take_varint s ≡ some (value, s')
    → take_varint (s ++ t) ≡ some (value, s' ++ t)
unfolding Extends
take_varint-longer s t value s' e =
    subst (λ (o : Option (ℕ × List ℕ)). Extends t o (take_varint (s ++ t))) e
      (take_varint-Extends s t)

module _ {State : Type 0} where
  pub read_step-Resumes :
      (n : ℕ) (update : List ℕ → State → State) → Resumes (read_step stream_reader n update)
  unfolding read_step Resumed
  read_step-Resumes n update state s t = elim (Option-cases (take_bytes s n)) [
    | inl e ↦
        Resumed-at (read_step stream_reader n update) t _ (need_more, state, s) _
          (rw (e, read_step) refl) refl
    | inr ((bytes, s'), e) ↦
        Resumed-at (read_step stream_reader n update) t _ (complete, update bytes state, s') _
          (rw (e, read_step) refl) (rw (take_bytes-longer s t n bytes s' e, read_step) refl)
  ]

  pub varint_step-Resumes :
      (update : ℕ → State → State) → Resumes (varint_step stream_reader update)
  unfolding varint_step Resumed
  varint_step-Resumes update state s t = elim (Option-cases (take_varint s)) [
    | inl e ↦
        Resumed-at (varint_step stream_reader update) t _ (need_more, state, s) _
          (rw (e, varint_step) refl) refl
    | inr ((value, s'), e) ↦
        Resumed-at (varint_step stream_reader update) t _ (complete, update value state, s') _
          (rw (e, varint_step) refl) (rw (take_varint-longer s t value s' e, varint_step) refl)
  ]

  pub init_step-Resumes : (update : State → State) → Resumes (init_step {State = State} update)
  unfolding Resumed
  init_step-Resumes update state s t = refl

-- The loops over chunks.
module _ {A : Type 0} (on_chunk : ℕ → List ℕ → A → Bool × A) (size : ℕ) (finished : ℕ → Bool)
    (ends : (counter : ℕ)
      → counter < 2 ^ 32
      → remaining_len size counter ≡ 0
      → finished counter ≡ true) where
  loop : ℕ → ParsingStep (ℕ × A) (List ℕ)
  loop = chunk_loop stream_reader on_chunk size finished

  -- What is left after a chunk.
  next_remaining :
      (counter : ℕ)
      → remaining_len size ((counter + data_len size counter) % 2 ^ 32)
        ≡ remaining_len size counter - data_len size counter
  unfolding data_len
  next_remaining counter = ground arith

  -- A loop that is not finished has bytes left.
  less_left :
      (counter : ℕ)
      → finished ((counter + data_len size counter) % 2 ^ 32) ≡ false
      → remaining_len size ((counter + data_len size counter) % 2 ^ 32) < remaining_len size counter
  unfolding data_len
  less_left counter unfinished =
      let c' = (counter + data_len size counter) % 2 ^ 32 in
      elim (dec_lt 0 (remaining_len size c')) [
        | yes p ↦ ground (arith, next_remaining counter)
        | no p ↦ let done = ends c' (ground arith) (omega arith) in cc
      ]

  -- The round behind a read, with the fuel that is left.
  round : ℕ → ℕ → List ℕ → A → List ℕ → StepResult × (ℕ × A) × List ℕ
  round fuel counter bytes a s =
      let a' = (on_chunk counter bytes a).1 in
      let c' = (counter + data_len size counter) % 2 ^ 32 in
      elim (on_chunk counter bytes a).0 [
        | false ↦ (error, (counter, a'), s)
        | true ↦ elim (finished c') [
          | true ↦ (complete, (c', a'), s)
          | false ↦ loop fuel (c', a') s
        ]
      ]

  loop-none :
      (fuel counter : ℕ) (a : A) (s : List ℕ)
      → take_bytes s (data_len size counter) ≡ none
      → loop (suc fuel) (counter, a) s ≡ (need_more, (counter, a), s)
  unfolding loop chunk_loop
  loop-none fuel counter a s e = rw (e, chunk_loop) refl

  loop-some :
      (fuel counter : ℕ) (a : A) (s bytes s' : List ℕ)
      → take_bytes s (data_len size counter) ≡ some (bytes, s')
      → loop (suc fuel) (counter, a) s ≡ round fuel counter bytes a s'
  unfolding loop chunk_loop round
  loop-some fuel counter a s bytes s' e = rw (e, chunk_loop) refl

  -- Rounds that go on from a smaller number of bytes left.
  round-by :
      (P : (StepResult × (ℕ × A) × List ℕ) → (StepResult × (ℕ × A) × List ℕ) → Type 0)
      (fuel fuel' counter : ℕ) (a : A) (bytes s s' : List ℕ)
      → ((c : ℕ) (a' : A) → P (error, (c, a'), s) (error, (c, a'), s'))
      → ((c : ℕ) (a' : A) → P (complete, (c, a'), s) (complete, (c, a'), s'))
      → ((c : ℕ) (a' : A)
          → remaining_len size c < remaining_len size counter
          → P (loop fuel (c, a') s) (loop fuel' (c, a') s'))
      → P (round fuel counter bytes a s) (round fuel' counter bytes a s')
  unfolding round
  round-by P fuel fuel' counter a bytes s s' he hc again =
      let a' = (on_chunk counter bytes a).1 in
      let c' = (counter + data_len size counter) % 2 ^ 32 in
      elim (Bool-cases (on_chunk counter bytes a).0) [
        | inr stop ↦ rw (stop, round) (he counter a')
        | inl go_on ↦ elim (Bool-cases (finished c')) [
          | inl end ↦ rw (go_on, end, round) (hc c' a')
          | inr more ↦ rw (go_on, more, round) (again c' a' (less_left counter more))
        ]
      ]

  loop-fuel :
      (fuel fuel' counter : ℕ) (a : A) (s : List ℕ)
      → remaining_len size counter < fuel
      → remaining_len size counter < fuel'
      → loop fuel (counter, a) s ≡ loop fuel' (counter, a) s
  loop-fuel zero fuel' counter a s h h' = absurd (omega arith)
  loop-fuel (suc fuel) zero counter a s h h' = absurd (omega arith)
  loop-fuel (suc fuel) (suc fuel') counter a s h h' =
      elim (Option-cases (take_bytes s (data_len size counter))) [
        | inl e ↦ loop-none fuel counter a s e ∙ sym (loop-none fuel' counter a s e)
        | inr ((bytes, s'), e) ↦
            loop-some fuel counter a s bytes s' e
            ∙ (round-by (λ o o'. o ≡ o') fuel fuel' counter a bytes s' s' (λ c a'. refl)
                  (λ c a'. refl)
                  (λ c a' less. loop-fuel fuel fuel' c a' s' (omega arith) (omega arith))
                ∙ sym (loop-some fuel' counter a s bytes s' e))
      ]

  pub loop-Returns :
      (fuel counter : ℕ) (a : A) (s : List ℕ)
      → remaining_len size counter < fuel
      → Returns (chunk_loop stream_reader on_chunk size finished fuel (counter, a) s).0
  unfolding loop Returns
  loop-Returns zero counter a s h = absurd (omega arith)
  loop-Returns (suc fuel) counter a s h =
      elim (Option-cases (take_bytes s (data_len size counter))) [
        | inl e ↦
            subst (λ (o : StepResult × (ℕ × A) × List ℕ). Returns o.0)
              (sym (loop-none fuel counter a s e)) tt
        | inr ((bytes, s'), e) ↦
            subst (λ (o : StepResult × (ℕ × A) × List ℕ). Returns o.0)
              (sym (loop-some fuel counter a s bytes s' e))
              (round-by (λ o o'. Returns o.0) fuel fuel counter a bytes s' s' (λ c a'. tt)
                (λ c a'. tt) (λ c a' less. loop-Returns fuel c a' s' (omega arith)))
      ]

  loop-Resumed :
      (fuel fuel' counter : ℕ) (a : A) (s t : List ℕ)
      → remaining_len size counter < fuel
      → remaining_len size counter < fuel'
      → Resumed
          (chunks stream_reader on_chunk size finished)
          t
          (loop fuel (counter, a) s)
          (loop fuel' (counter, a) (s ++ t))
  unfolding Resumed chunks loop
  loop-Resumed zero fuel' counter a s t h h' = absurd (omega arith)
  loop-Resumed (suc fuel) zero counter a s t h h' = absurd (omega arith)
  loop-Resumed (suc fuel) (suc fuel') counter a s t h h' =
      let f = chunks stream_reader on_chunk size finished in
      elim (Option-cases (take_bytes s (data_len size counter))) [
        | inl e ↦
            Resumed-at f t _ (need_more, (counter, a), s) _ (loop-none fuel counter a s e)
              (loop-fuel (suc fuel') (suc (remaining_len size counter)) counter a (s ++ t) h'
                (omega arith))
        | inr ((bytes, s'), e) ↦
            Resumed-at f t _ (round fuel counter bytes a s') _
              (loop-some fuel counter a s bytes s' e)
              (rw
                (loop-some fuel' counter a (s ++ t) bytes (s' ++ t)
                  (take_bytes-longer s t _ bytes s' e))
                (round-by (Resumed f t) fuel fuel' counter a bytes s' (s' ++ t) (λ c a'. refl)
                  (λ c a'. refl)
                  (λ c a' less. loop-Resumed fuel fuel' c a' s' t (omega arith) (omega arith))))
      ]

  -- Where the loop stops for more data: at the counter that it began with, or one that is not finished.
  unfoldable pub WaitsAt : ℕ → StepResult × (ℕ × A) × List ℕ → Type 0
  WaitsAt counter (need_more, (c, a), s) = (c ≡ counter) ⊎ (finished c ≡ false)
  WaitsAt counter (error, state, s) = Unit {0}
  WaitsAt counter (complete, state, s) = Unit {0}
  WaitsAt counter (endless, state, s) = Unit {0}

  WaitsAt-unfinished :
      (counter c : ℕ) (o : StepResult × (ℕ × A) × List ℕ)
      → finished c ≡ false
      → WaitsAt c o
      → WaitsAt counter o
  unfolding WaitsAt
  WaitsAt-unfinished counter c (need_more, (c', a), s) h (inl e) = inr (rw e h)
  WaitsAt-unfinished counter c (need_more, (c', a), s) h (inr w) = inr w
  WaitsAt-unfinished counter c (error, state, s) h w = tt
  WaitsAt-unfinished counter c (complete, state, s) h w = tt
  WaitsAt-unfinished counter c (endless, state, s) h w = tt

  pub loop-WaitsAt :
      (fuel counter : ℕ) (a : A) (s : List ℕ)
      → WaitsAt counter (chunk_loop stream_reader on_chunk size finished fuel (counter, a) s)
  unfolding WaitsAt loop round
  loop-WaitsAt zero counter a s = unfold chunk_loop in tt
  loop-WaitsAt (suc fuel) counter a s = elim (Option-cases (take_bytes s (data_len size counter))) [
    | inl e ↦ subst (WaitsAt counter) (sym (loop-none fuel counter a s e)) (inl refl)
    | inr ((bytes, s'), e) ↦
        let c' = (counter + data_len size counter) % 2 ^ 32 in
        let a' = (on_chunk counter bytes a).1 in
        let rest = loop-WaitsAt fuel c' a' s' in
        subst (WaitsAt counter) (sym (loop-some fuel counter a s bytes s' e))
          (elim (Bool-cases (on_chunk counter bytes a).0) [
            | inr stop ↦ rw (stop, round) tt
            | inl go_on ↦ elim (Bool-cases (finished c')) [
              | inl end ↦ rw (go_on, end, round) tt
              | inr more ↦ rw (go_on, more, round) (WaitsAt-unfinished counter c' _ more rest)
            ]
          ])
  ]

  pub chunks-Resumes : Resumes (chunks stream_reader on_chunk size finished)
  unfolding chunks loop
  chunks-Resumes (counter, a) s t =
      loop-Resumed (suc (remaining_len size counter)) (suc (remaining_len size counter)) counter a s
        t (omega arith) (omega arith)
