-- ===== src/Rawtx/Total.antt =====
-- Steps made of steps that return.
use app_bitcoin_new.Prelude.{
  ℕ, zero, suc, ◌+◌, ◌-◌, ◌%◌, ◌^◌, List, [], ◌∷◌, Option, none, some, Bool, true, false,
  if◌then◌else◌, drop, All, All-drop,
}
use app_bitcoin_new.Buffer.Stream.{take_bytes}
use app_bitcoin_new.Parser.{
  StepResult, error, need_more, complete, endless, ParsingStep, next_step, run_from, parser_run,
}
use app_bitcoin_new.Parser.Run.{Returns}
use app_bitcoin_new.Parser.Varint.{take_varint}
use app_bitcoin_new.Rawtx.{
  stream_reader, read_step, varint_step, init_step, as_bool, with_bool, counted, counted_rounds,
  Sized, sized, sized_body,
}

abbrev pub IsTotal : {State : Type 0} → ParsingStep State (List ℕ) → Type 0
IsTotal {State} f = (state : State) (s : List ℕ) → Returns (f state s).0

pub if_Returns :
    {State : Type 0} (c : Bool) (x y : StepResult × State × List ℕ)
    → Returns x.0
    → Returns y.0
    → Returns (if◌then◌else◌ {A = StepResult × State × List ℕ} c x y).0
if_Returns true x y hx hy = hx
if_Returns false x y hx hy = hy

next_step-Returns :
    {State : Type 0} (r : StepResult) (stop : StepResult → StepResult × State × List ℕ)
    (go : StepResult × State × List ℕ)
    → Returns r
    → ((q : StepResult) → Returns q → Returns (stop q).0)
    → Returns go.0
    → Returns (next_step r stop go).0
unfolding next_step
next_step-Returns error stop go h hs hg = hs error h
next_step-Returns need_more stop go h hs hg = hs need_more h
next_step-Returns complete stop go h hs hg = hg
next_step-Returns endless stop go h hs hg = hs endless h

as_bool-Returns : (r : StepResult) → Returns r → Returns (as_bool r)
unfolding as_bool Returns
as_bool-Returns error h = tt
as_bool-Returns need_more h = tt
as_bool-Returns complete h = tt
as_bool-Returns endless h = h

module _ {State : Type 0} where
  pub read_step-IsTotal :
      (n : ℕ) (update : List ℕ → State → State) → IsTotal (read_step stream_reader n update)
  unfolding read_step Returns
  read_step-IsTotal n update state s = go (take_bytes s n)
    where
      go :
          (o : Option (List ℕ × List ℕ))
          → Returns
              (elim o as (λ x. StepResult × State × List ℕ) [
                | none ↦ (need_more, state, s)
                | some (bytes, s') ↦ (complete, update bytes state, s')
              ]).0
      go none = tt
      go (some (bytes, s')) = tt

  pub varint_step-IsTotal :
      (update : ℕ → State → State) → IsTotal (varint_step stream_reader update)
  unfolding varint_step Returns
  varint_step-IsTotal update state s = go (take_varint s)
    where
      go :
          (o : Option (ℕ × List ℕ))
          → Returns
              (elim o as (λ x. StepResult × State × List ℕ) [
                | none ↦ (need_more, state, s)
                | some (value, s') ↦ (complete, update value state, s')
              ]).0
      go none = tt
      go (some (value, s')) = tt

  pub init_step-IsTotal : (update : State → State) → IsTotal (init_step update)
  unfolding Returns
  init_step-IsTotal update state s = tt

  pub with_bool-IsTotal : (f : ParsingStep State (List ℕ)) → IsTotal f → IsTotal (with_bool f)
  unfolding with_bool
  with_bool-IsTotal f h state s = as_bool-Returns (f state s).0 (h state s)

  run_from-Returns :
      (fs : List (ParsingStep State (List ℕ))) (cur : ℕ) (state : State) (s : List ℕ)
      → All IsTotal fs
      → Returns (run_from fs cur state s).0
  unfolding run_from
  run_from-Returns [] cur state s h = unfold Returns in tt
  run_from-Returns (f ∷ fs) cur state s (h, hs) =
      next_step-Returns (f state s).0 _ _ (h state s) (λ q hq. hq)
        (run_from-Returns fs (cur + 1) (f state s).1 (f state s).2 hs)

  pub parser_run-IsTotal :
      (steps : List (ParsingStep State (List ℕ))) → All IsTotal steps → IsTotal (parser_run steps)
  unfolding parser_run
  parser_run-IsTotal steps h (cur, state) s =
      run_from-Returns (drop cur steps) cur state s (All-drop IsTotal cur steps h)

module _ {A : Type 0} where
  counted_rounds-Returns :
      (body : ℕ → ParsingStep A (List ℕ)) (reset : A → A)
      → ((counter : ℕ) → IsTotal (body counter))
      → (rounds counter : ℕ) (a : A) (s : List ℕ)
      → Returns (counted_rounds body reset rounds (counter, a) s).0
  unfolding counted_rounds
  counted_rounds-Returns body reset h zero counter a s = unfold Returns in tt
  counted_rounds-Returns body reset h (suc rounds) counter a s =
      let o = body counter a s in
      next_step-Returns o.0 _ _ (h counter a s) (λ q hq. hq)
        (counted_rounds-Returns body reset h rounds (counter + 1) (reset o.1) o.2)

  pub counted-IsTotal :
      (body : ℕ → ParsingStep A (List ℕ)) (reset : A → A) (n : ℕ)
      → ((counter : ℕ) → IsTotal (body counter))
      → IsTotal (counted body reset n)
  unfolding counted
  counted-IsTotal body reset n h (counter, a) s =
      counted_rounds-Returns body reset h (n - counter) counter a s

  module _ (start : A → A) (body : ℕ → ParsingStep A (List ℕ))
      (h : (size : ℕ) → IsTotal (body size)) where
    sized_body-Returns :
        (size : ℕ) (state : Sized A) (s : List ℕ)
        → Returns (sized_body stream_reader start body size state s).0
    unfolding sized_body
    sized_body-Returns size state s =
        next_step-Returns (body size state.inner s).0 _ _ (h size state.inner s) (λ q hq. hq)
          (unfold Returns in tt)

    pub sized-IsTotal : IsTotal (sized stream_reader start body)
    unfolding sized Returns
    sized-IsTotal state s = go state.is_read (take_varint s)
      where
        go :
            (b : Bool) (o : Option (ℕ × List ℕ))
            → Returns
                (elim b as (λ x. StepResult × Sized A × List ℕ) [
                  | true ↦ sized_body stream_reader start body state.size state s
                  | false ↦ elim o [
                    | none ↦ (need_more, state, s)
                    | some (value, s') ↦
                        sized_body stream_reader start body
                          (value % 2 ^ 32)
                          (record state { inner = start state.inner })
                          s'
                  ]
                ]).0
        go true o = sized_body-Returns state.size state s
        go false none = tt
        go false (some (value, s')) =
            sized_body-Returns (value % 2 ^ 32) (record state { inner = start state.inner }) s'
