-- ===== src/Rawtx/Combine.antt =====
-- Steps made of steps, on a stream that arrives in parts.
use app_bitcoin_new.Prelude.{
  ℕ, zero, suc, ◌+◌, ◌-◌, ◌%◌, ◌^◌, ◌≡◌, refl, sym, ap, ◌∙◌, arith, List, ◌++◌, Bool, true, false,
  Option-cases, inl, inr,
}
use mathlib.Core.Path.{subst}
use app_bitcoin_new.Parser.{StepResult, error, need_more, complete, endless, ParsingStep, next_step}
use app_bitcoin_new.Parser.Varint.{take_varint}
use app_bitcoin_new.Parser.Run.{Resumed, Resumes}
use app_bitcoin_new.Rawtx.{
  stream_reader, on_part, as_bool, with_bool, counted, counted_rounds, Sized, sized, sized_body,
}
use app_bitcoin_new.Rawtx.Resume.{take_varint-longer}

module _ {State P : Type 0} (get : State → P) (set : P → State → State)
    (f : State → ParsingStep P (List ℕ)) (get-set : (p : P) (state : State) → get (set p state) ≡ p)
    (set-set : (p p' : P) (state : State) → set p (set p' state) ≡ set p state)
    (same : (p : P) (state : State) → f (set p state) ≡ f state) where
  whole : State → StepResult × P × List ℕ → StepResult × State × List ℕ
  whole state (r, p, s) = (r, set p state, s)

  whole-Resumed :
      (state : State) (t : List ℕ) (o o' : StepResult × P × List ℕ)
      → Resumed (f state) t o o'
      → Resumed (on_part get set f) t (whole state o) (whole state o')
  unfolding Resumed whole on_part
  whole-Resumed state t (need_more, p, s) o' r =
      rw (get-set p state, same p state) (ap (whole state) r ∙ rw (set-set _ p state) refl)
  whole-Resumed state t (error, p, s) o' r = ap (whole state) r
  whole-Resumed state t (complete, p, s) o' r = ap (whole state) r
  whole-Resumed state t (endless, p, s) o' r = ap (whole state) r

  pub on_part-Resumes : ((state : State) → Resumes (f state)) → Resumes (on_part get set f)
  unfolding on_part whole
  on_part-Resumes h state s t = whole-Resumed state t _ _ (h state (get state) s t)

module _ {State : Type 0} (f : ParsingStep State (List ℕ)) where
  bool_outcome : StepResult × State × List ℕ → StepResult × State × List ℕ
  bool_outcome (r, state, s) = (as_bool r, state, s)

  bool_outcome-Resumed :
      (t : List ℕ) (o o' : StepResult × State × List ℕ)
      → Resumed f t o o'
      → Resumed (with_bool f) t (bool_outcome o) (bool_outcome o')
  unfolding Resumed bool_outcome with_bool as_bool
  bool_outcome-Resumed t (need_more, state, s) o' r = ap bool_outcome r
  bool_outcome-Resumed t (error, state, s) o' r = ap bool_outcome r
  bool_outcome-Resumed t (complete, state, s) o' r = ap bool_outcome r
  bool_outcome-Resumed t (endless, state, s) o' r = ap bool_outcome r

  pub with_bool-Resumes : Resumes f → Resumes (with_bool f)
  unfolding with_bool bool_outcome
  with_bool-Resumes h state s t = bool_outcome-Resumed t _ _ (h state s t)

module _ {A : Type 0} (body : ℕ → ParsingStep A (List ℕ)) (reset : A → A) (n : ℕ)
    (h : (counter : ℕ) → Resumes (body counter)) where
  -- The rounds behind the outcome of one.
  behind : ℕ → ℕ → StepResult × A × List ℕ → StepResult × (ℕ × A) × List ℕ
  behind rounds counter (r, a, s) =
      next_step r (λ stop. (stop, (counter, a), s))
        (counted_rounds body reset rounds (counter + 1, reset a) s)

  counted_rounds-suc :
      (rounds counter : ℕ) (a : A) (s : List ℕ)
      → counted_rounds body reset (suc rounds) (counter, a) s
        ≡ behind rounds counter (body counter a s)
  unfolding counted_rounds behind
  counted_rounds-suc rounds counter a s = refl

  behind-Resumed :
      (rounds counter : ℕ) (t : List ℕ) (o o' : StepResult × A × List ℕ)
      → suc rounds ≡ n - counter
      → ((a : A) (s : List ℕ)
          → Resumed
              (counted body reset n)
              t
              (counted_rounds body reset rounds (counter + 1, a) s)
              (counted_rounds body reset rounds (counter + 1, a) (s ++ t)))
      → Resumed (body counter) t o o'
      → Resumed (counted body reset n) t (behind rounds counter o) (behind rounds counter o')
  unfolding Resumed behind next_step counted
  behind-Resumed rounds counter t (need_more, a, s) o' e again r =
      ap (behind rounds counter) r
      ∙ (sym (counted_rounds-suc rounds counter a (s ++ t)) ∙ rw e refl)
  behind-Resumed rounds counter t (error, a, s) o' e again r = ap (behind rounds counter) r
  behind-Resumed rounds counter t (endless, a, s) o' e again r = ap (behind rounds counter) r
  behind-Resumed rounds counter t (complete, a, s) o' e again r =
      subst
        (λ (o : StepResult × A × List ℕ).
          Resumed (counted body reset n) t
            (counted_rounds body reset rounds (counter + 1, reset a) s) (behind rounds counter o))
        (sym r) (again (reset a) s)

  counted_rounds-Resumed :
      (rounds counter : ℕ) (a : A) (s t : List ℕ)
      → rounds ≡ n - counter
      → Resumed
          (counted body reset n)
          t
          (counted_rounds body reset rounds (counter, a) s)
          (counted_rounds body reset rounds (counter, a) (s ++ t))
  counted_rounds-Resumed zero counter a s t e = unfold counted_rounds Resumed in refl
  counted_rounds-Resumed (suc rounds) counter a s t e =
      rw (counted_rounds-suc rounds counter a s, counted_rounds-suc rounds counter a (s ++ t))
        (behind-Resumed rounds counter t (body counter a s) (body counter a (s ++ t)) e
          (λ a' s'. counted_rounds-Resumed rounds (counter + 1) a' s' t (omega arith))
          (h counter a s t))

  pub counted-Resumes : Resumes (counted body reset n)
  unfolding counted
  counted-Resumes (counter, a) s t = counted_rounds-Resumed (n - counter) counter a s t refl

module _ {A : Type 0} (start : A → A) (body : ℕ → ParsingStep A (List ℕ))
    (h : (size : ℕ) → Resumes (body size)) where
  step : ParsingStep (Sized A) (List ℕ)
  step = sized stream_reader start body

  -- What stands around the outcome of the body.
  around : ℕ → StepResult × A × List ℕ → StepResult × Sized A × List ℕ
  around size (r, a, s) =
      let now : Sized A = record { is_read = true; size = size; inner = a } in
      next_step r (λ stop. (stop, now, s)) (complete, record now { is_read = false }, s)

  around-Resumed :
      (size : ℕ) (t : List ℕ) (o o' : StepResult × A × List ℕ)
      → Resumed (body size) t o o'
      → Resumed step t (around size o) (around size o')
  unfolding Resumed around next_step step sized sized_body
  around-Resumed size t (need_more, a, s) o' r = ap (around size) r
  around-Resumed size t (error, a, s) o' r = ap (around size) r
  around-Resumed size t (complete, a, s) o' r = ap (around size) r
  around-Resumed size t (endless, a, s) o' r = ap (around size) r

  sized_body-Resumed :
      (size : ℕ) (state : Sized A) (s t : List ℕ)
      → Resumed step t
          (sized_body stream_reader start body size state s)
          (sized_body stream_reader start body size state (s ++ t))
  unfolding sized_body around
  sized_body-Resumed size state s t = around-Resumed size t _ _ (h size state.inner s t)

  sized-Resumed :
      (is_read : Bool) (size : ℕ) (a : A) (s t : List ℕ)
      → Resumed step t
          (step (record { is_read = is_read; size = size; inner = a }) s)
          (step (record { is_read = is_read; size = size; inner = a }) (s ++ t))
  unfolding step sized
  sized-Resumed true size a s t =
      sized_body-Resumed size (record { is_read = true; size = size; inner = a }) s t
  sized-Resumed false size a s t = elim (Option-cases (take_varint s)) [
    | inl e ↦ unfold Resumed in rw (e, step, sized) refl
    | inr ((value, s'), e) ↦
        rw (e, take_varint-longer s t value s' e, step, sized)
          (sized_body-Resumed (value % 2 ^ 32)
            (record { is_read = false; size = size; inner = start a }) s' t)
  ]

  pub sized-Resumes : Resumes (sized stream_reader start body)
  unfolding step
  sized-Resumes state s t = sized-Resumed state.is_read state.size state.inner s t
