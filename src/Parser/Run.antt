-- ===== src/Parser/Run.antt =====
-- `parser_run` of common/parser.c on a stream that arrives in parts.
use app_bitcoin_new.Prelude.{
  ℕ, zero, suc, ◌+◌, ◌≡◌, refl, sym, ap, ◌∙◌, arith, List, [], ◌∷◌, ◌++◌, drop, All, All-drop,
}
use mathlib.Core.Path.{subst}
use app_bitcoin_new.Parser.{
  StepResult, error, need_more, complete, endless, ParsingStep, next_step, run_from, parser_run,
}

-- A result other than of a step that does not return.
unfoldable pub Returns : StepResult → Type 0
Returns error = Unit {0}
Returns need_more = Unit {0}
Returns complete = Unit {0}
Returns endless = ⊥

module _ {State : Type 0} where
  -- What a step does with more bytes behind what it read from: the same, with these bytes left behind; or,
  -- where it stopped for more data, what it does from the state and the bytes that it left.
  unfoldable pub Resumed :
      ParsingStep State (List ℕ)
      → List ℕ
      → StepResult × State × List ℕ
      → StepResult × State × List ℕ
      → Type 0
  Resumed f t (need_more, state, s) o = o ≡ f state (s ++ t)
  Resumed f t (error, state, s) o = o ≡ (error, state, s ++ t)
  Resumed f t (complete, state, s) o = o ≡ (complete, state, s ++ t)
  Resumed f t (endless, state, s) o = o ≡ (endless, state, s ++ t)

  abbrev pub Resumes : ParsingStep State (List ℕ) → Type 0
  Resumes f = (state : State) (s t : List ℕ) → Resumed f t (f state s) (f state (s ++ t))

pub drop-next :
    {A : Type 0} (cur : ℕ) (xs : List A) (x : A) (ys : List A)
    → drop cur xs ≡ x ∷ ys
    → drop (cur + 1) xs ≡ ys
drop-next zero [] x ys e = cc
drop-next zero (y ∷ xs) x ys e = cc
drop-next (suc cur) [] x ys e = cc
drop-next (suc cur) (y ∷ xs) x ys e =
    let k : suc cur + 1 ≡ suc (cur + 1) = omega arith in rw k (drop-next cur xs x ys e)

module _ {State : Type 0} where
  -- The outcome of the first run, written out.
  pub Resumed-at :
      (f : ParsingStep State (List ℕ)) (t : List ℕ) (o p o' : StepResult × State × List ℕ)
      → o ≡ p
      → Resumed f t p o'
      → Resumed f t o o'
  Resumed-at f t o p o' e r =
      subst (λ (q : StepResult × State × List ℕ). Resumed f t q o') (sym e) r

module _ {State : Type 0} where
  -- One round, from what its step gives.
  round :
      List (ParsingStep State (List ℕ))
      → ℕ
      → StepResult × State × List ℕ
      → StepResult × (ℕ × State) × List ℕ
  round fs cur o = next_step o.0 (λ r. (r, (cur, o.1), o.2)) (run_from fs (cur + 1) o.1 o.2)

  run_from-cons :
      (f : ParsingStep State (List ℕ)) (fs : List (ParsingStep State (List ℕ))) (cur : ℕ)
      (state : State) (s : List ℕ)
      → run_from (f ∷ fs) cur state s ≡ round fs cur (f state s)
  unfolding run_from round
  run_from-cons f fs cur state s = refl

  module _ (steps : List (ParsingStep State (List ℕ))) where
    round-Resumed :
        (f : ParsingStep State (List ℕ)) (fs : List (ParsingStep State (List ℕ))) (cur : ℕ)
        (t : List ℕ)
        → drop cur steps ≡ f ∷ fs
        → ((state : State) (s : List ℕ)
            → Resumed
                (parser_run steps)
                t
                (run_from fs (cur + 1) state s)
                (run_from fs (cur + 1) state (s ++ t)))
        → (o o' : StepResult × State × List ℕ) → Resumed f t o o'
        → Resumed (parser_run steps) t (round fs cur o) (round fs cur o')
    unfolding Resumed round next_step parser_run
    round-Resumed f fs cur t e again (need_more, state, s) o' r =
        ap (round fs cur) r ∙ (sym (run_from-cons f fs cur state (s ++ t)) ∙ rw e refl)
    round-Resumed f fs cur t e again (error, state, s) o' r = ap (round fs cur) r
    round-Resumed f fs cur t e again (endless, state, s) o' r = ap (round fs cur) r
    round-Resumed f fs cur t e again (complete, state, s) o' r =
        subst
          (λ (o : StepResult × State × List ℕ).
            Resumed (parser_run steps) t (run_from fs (cur + 1) state s) (round fs cur o))
          (sym r) (again state s)

    from-Resumed :
        (fs : List (ParsingStep State (List ℕ))) (cur : ℕ) (state : State) (s t : List ℕ)
        → drop cur steps ≡ fs
        → All Resumes fs
        → Resumed (parser_run steps) t (run_from fs cur state s) (run_from fs cur state (s ++ t))
    from-Resumed [] cur state s t e h = unfold run_from Resumed in refl
    from-Resumed (f ∷ fs) cur state s t e (hf, h) =
        rw (run_from-cons f fs cur state s, run_from-cons f fs cur state (s ++ t))
          (round-Resumed f fs cur t e
            (λ state' s'. from-Resumed fs (cur + 1) state' s' t (drop-next cur steps f fs e) h)
            (f state s) (f state (s ++ t)) (hf state s t))

    -- If each step, given more bytes, either does the same and leaves these bytes, or goes on from where it
    -- stopped for more data, then so does `parser_run` over the steps: its state and the bytes that it left
    -- are all that has to be kept between two parts of the input.
    pub parser_run-Resumes : All Resumes steps → Resumes (parser_run steps)
    unfolding parser_run
    parser_run-Resumes h (cur, state) s t =
        from-Resumed (drop cur steps) cur state s t refl (All-drop Resumes cur steps h)
