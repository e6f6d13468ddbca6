-- ===== src/Rawtx/Agree.antt =====
-- Steps on a pair of buffers against the same steps on the bytes that remain in it.
use app_bitcoin_new.Prelude.{
  ℕ, zero, suc, ◌+◌, ◌-◌, ◌%◌, ◌^◌, List, [], ◌∷◌, Bool, true, false, drop,
}
use app_bitcoin_new.Parser.{
  Dbuffer, error, need_more, complete, endless, ParsingStep, next_step, run_from, parser_run,
}
use app_bitcoin_new.Parser.Stream.{stream}
use app_bitcoin_new.Rawtx.{
  dbuffer_reader, stream_reader, read_step, varint_step, init_step, data_len, remaining_len,
  chunk_loop, chunks, on_part, with_bool, as_bool, counted, counted_rounds, Sized, sized,
  sized_body,
}
use app_bitcoin_new.Rawtx.Buffers.{
  IsPair, Same, Agrees, now_Same, bool_Same, next_step-Same, read_Same, step_Same,
  read_bytes-ReadSame, read_varint-ReadSame,
}

-- Steps with the same behaviour, one for each round of `parser_run`.
unfoldable pub AllAgree :
    {State : Type 0}
    → List ℕ
    → List (ParsingStep State Dbuffer)
    → List (ParsingStep State (List ℕ))
    → Type 0
AllAgree ptr [] [] = Unit {0}
AllAgree ptr [] (g ∷ gs) = ⊥
AllAgree ptr (f ∷ fs) [] = ⊥
AllAgree ptr (f ∷ fs) (g ∷ gs) = Agrees ptr f g × AllAgree ptr fs gs

module _ (ptr : List ℕ) {State : Type 0} where
  pub read_step-Agrees :
      (n : ℕ) (update : List ℕ → State → State)
      → Agrees ptr (read_step dbuffer_reader n update) (read_step stream_reader n update)
  unfolding read_step
  read_step-Agrees n update state d p =
      read_Same ptr _ _ _ _ (λ bytes d'. (complete, update bytes state, d'))
        (λ bytes s'. (complete, update bytes state, s')) (read_bytes-ReadSame ptr d n p)
        (now_Same ptr need_more state d p)
        (λ bytes d' p'. now_Same ptr complete (update bytes state) d' p')

  pub varint_step-Agrees :
      (update : ℕ → State → State)
      → Agrees ptr (varint_step dbuffer_reader update) (varint_step stream_reader update)
  unfolding varint_step
  varint_step-Agrees update state d p =
      read_Same ptr _ _ _ _ (λ value d'. (complete, update value state, d'))
        (λ value s'. (complete, update value state, s')) (read_varint-ReadSame ptr d p)
        (now_Same ptr need_more state d p)
        (λ value d' p'. now_Same ptr complete (update value state) d' p')

  pub init_step-Agrees : (update : State → State) → Agrees ptr (init_step update) (init_step update)
  init_step-Agrees update state d p = now_Same ptr complete (update state) d p

  pub with_bool-Agrees :
      (f : ParsingStep State Dbuffer) (g : ParsingStep State (List ℕ))
      → Agrees ptr f g
      → Agrees ptr (with_bool f) (with_bool g)
  unfolding with_bool
  with_bool-Agrees f g h state d p =
      step_Same ptr _ _ (λ r state' d'. (as_bool r, state', d'))
        (λ r state' s'. (as_bool r, state', s')) (h state d p)
        (λ r state' d' p'. now_Same ptr (as_bool r) state' d' p')

  run_from-Agrees :
      (fs : List (ParsingStep State Dbuffer)) (gs : List (ParsingStep State (List ℕ))) (cur : ℕ)
      → AllAgree ptr fs gs
      → (state : State) (d : Dbuffer) → IsPair ptr d
      → Same ptr (run_from fs cur state d) (run_from gs cur state (stream d))
  unfolding run_from AllAgree
  run_from-Agrees [] [] cur h state d p = now_Same ptr complete (cur, state) d p
  run_from-Agrees [] (g ∷ gs) cur h state d p = absurd h
  run_from-Agrees (f ∷ fs) [] cur h state d p = absurd h
  run_from-Agrees (f ∷ fs) (g ∷ gs) cur (h, hs) state d p =
      step_Same ptr _ _
        (λ r state' d'. next_step r (λ q. (q, (cur, state'), d')) (run_from fs (cur + 1) state' d'))
        (λ r state' s'. next_step r (λ q. (q, (cur, state'), s')) (run_from gs (cur + 1) state' s'))
        (h state d p)
        (λ r state' d' p'.
          next_step-Same ptr r _ _ _ _ (λ q. now_Same ptr q (cur, state') d' p')
            (run_from-Agrees fs gs (cur + 1) hs state' d' p'))

  drop-AllAgree :
      (cur : ℕ) (fs : List (ParsingStep State Dbuffer)) (gs : List (ParsingStep State (List ℕ)))
      → AllAgree ptr fs gs
      → AllAgree ptr (drop cur fs) (drop cur gs)
  unfolding AllAgree
  drop-AllAgree zero fs gs h = h
  drop-AllAgree (suc cur) [] [] h = h
  drop-AllAgree (suc cur) [] (g ∷ gs) h = absurd h
  drop-AllAgree (suc cur) (f ∷ fs) [] h = absurd h
  drop-AllAgree (suc cur) (f ∷ fs) (g ∷ gs) (h, hs) = drop-AllAgree cur fs gs hs

  pub parser_run-Agrees :
      (fs : List (ParsingStep State Dbuffer)) (gs : List (ParsingStep State (List ℕ)))
      → AllAgree ptr fs gs
      → Agrees ptr (parser_run fs) (parser_run gs)
  unfolding parser_run
  parser_run-Agrees fs gs h (cur, state) d p =
      run_from-Agrees (drop cur fs) (drop cur gs) cur (drop-AllAgree cur fs gs h) state d p

module _ (ptr : List ℕ) {State P : Type 0} where
  pub on_part-Agrees :
      (get : State → P) (set : P → State → State) (f : State → ParsingStep P Dbuffer)
      (g : State → ParsingStep P (List ℕ))
      → ((state : State) → Agrees ptr (f state) (g state))
      → Agrees ptr (on_part get set f) (on_part get set g)
  unfolding on_part
  on_part-Agrees get set f g h state d p =
      step_Same ptr _ _ (λ r q d'. (r, set q state, d')) (λ r q s'. (r, set q state, s'))
        (h state (get state) d p) (λ r q d' p'. now_Same ptr r (set q state) d' p')

module _ (ptr : List ℕ) {A : Type 0} where
  pub counted-Agrees :
      (f : ℕ → ParsingStep A Dbuffer) (g : ℕ → ParsingStep A (List ℕ)) (reset : A → A) (n : ℕ)
      → ((counter : ℕ) → Agrees ptr (f counter) (g counter))
      → Agrees ptr (counted f reset n) (counted g reset n)
  unfolding counted counted_rounds
  counted-Agrees f g reset n h (counter, a) d p = go (n - counter) counter a d p
    where
      go :
          (rounds counter : ℕ) (a : A) (d : Dbuffer)
          → IsPair ptr d
          → Same ptr
              (counted_rounds f reset rounds (counter, a) d)
              (counted_rounds g reset rounds (counter, a) (stream d))
      go zero counter a d p = now_Same ptr complete (counter, a) d p
      go (suc rounds) counter a d p =
          step_Same ptr _ _
            (λ r a' d'.
              next_step r (λ q. (q, (counter, a'), d'))
                (counted_rounds f reset rounds (counter + 1, reset a') d'))
            (λ r a' s'.
              next_step r (λ q. (q, (counter, a'), s'))
                (counted_rounds g reset rounds (counter + 1, reset a') s'))
            (h counter a d p)
            (λ r a' d' p'.
              next_step-Same ptr r _ _ _ _ (λ q. now_Same ptr q (counter, a') d' p')
                (go rounds (counter + 1) (reset a') d' p'))

  module _ (start : A → A) (f : ℕ → ParsingStep A Dbuffer) (g : ℕ → ParsingStep A (List ℕ))
      (h : (size : ℕ) → Agrees ptr (f size) (g size)) where
    sized_body-Agrees :
        (size : ℕ)
        → Agrees ptr
            (sized_body dbuffer_reader start f size)
            (sized_body stream_reader start g size)
    unfolding sized_body
    sized_body-Agrees size state d p =
        let now : A → Sized A = λ a. record { is_read = true; size = size; inner = a } in
        step_Same ptr _ _
          (λ r a d'.
            next_step r (λ q. (q, now a, d'))
              (complete, record { is_read = false; size = size; inner = a }, d'))
          (λ r a s'.
            next_step r (λ q. (q, now a, s'))
              (complete, record { is_read = false; size = size; inner = a }, s'))
          (h size state.inner d p)
          (λ r a d' p'.
            next_step-Same ptr r _ _ _ _ (λ q. now_Same ptr q (now a) d' p')
              (now_Same ptr complete (record { is_read = false; size = size; inner = a }) d' p'))

    pub sized-Agrees : Agrees ptr (sized dbuffer_reader start f) (sized stream_reader start g)
    unfolding sized
    sized-Agrees state d p =
        bool_Same ptr state.is_read _ _ _ _ (sized_body-Agrees state.size state d p) (
          read_Same ptr _ _ _ _
            (λ value d'.
              sized_body dbuffer_reader start f (value % 2 ^ 32)
                (record state { inner = start state.inner }) d')
            (λ value s'.
              sized_body stream_reader start g (value % 2 ^ 32)
                (record state { inner = start state.inner }) s')
            (read_varint-ReadSame ptr d p) (now_Same ptr need_more state d p)
            (λ value d' p'.
              sized_body-Agrees (value % 2 ^ 32) (record state { inner = start state.inner }) d'
                p'))

  module _ (on_chunk : ℕ → List ℕ → A → Bool × A) (size : ℕ) (finished : ℕ → Bool) where
    chunk_loop-Agrees :
        (fuel : ℕ)
        → Agrees ptr
            (chunk_loop dbuffer_reader on_chunk size finished fuel)
            (chunk_loop stream_reader on_chunk size finished fuel)
    unfolding chunk_loop
    chunk_loop-Agrees zero (counter, a) d p = now_Same ptr endless (counter, a) d p
    chunk_loop-Agrees (suc fuel) (counter, a) d p =
        let c' = (counter + data_len size counter) % 2 ^ 32 in
        let after = λ (bytes : List ℕ). (on_chunk counter bytes a).1 in
        read_Same ptr _ _ _ _
          (λ bytes d'. elim (on_chunk counter bytes a).0 [
            | false ↦ (error, (counter, after bytes), d')
            | true ↦ elim (finished c') [
              | true ↦ (complete, (c', after bytes), d')
              | false ↦ chunk_loop dbuffer_reader on_chunk size finished fuel (c', after bytes) d'
            ]
          ])
          (λ bytes s'. elim (on_chunk counter bytes a).0 [
            | false ↦ (error, (counter, after bytes), s')
            | true ↦ elim (finished c') [
              | true ↦ (complete, (c', after bytes), s')
              | false ↦ chunk_loop stream_reader on_chunk size finished fuel (c', after bytes) s'
            ]
          ])
          (read_bytes-ReadSame ptr d (data_len size counter) p)
          (now_Same ptr need_more (counter, a) d p)
          (λ bytes d' p'.
            bool_Same ptr (on_chunk counter bytes a).0 _ _ _ _
              (bool_Same ptr (finished c') _ _ _ _ (now_Same ptr complete (c', after bytes) d' p')
                (chunk_loop-Agrees fuel (c', after bytes) d' p'))
              (now_Same ptr error (counter, after bytes) d' p'))

    pub chunks-Agrees :
        Agrees ptr
          (chunks dbuffer_reader on_chunk size finished)
          (chunks stream_reader on_chunk size finished)
    unfolding chunks
    chunks-Agrees (counter, a) d p =
        chunk_loop-Agrees (suc (remaining_len size counter)) (counter, a) d p
