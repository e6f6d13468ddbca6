-- ===== src/Client/Stream/Rounds.antt =====
-- What the loop of `call_stream_preimage` gives to its callback.
use app_bitcoin_new.Prelude.{
  ℕ, zero, suc, ◌-◌, ◌*◌, ◌^◌, ◌≤◌, ◌<◌, ◌≡◌, refl, sym, ap, ◌∙◌, arith, List, [], ◌∷◌, ◌++◌,
  append_assoc, append-nil, length, length-append, length-take, take, drop, All, Option, none, some,
  true, false, ltb, ◌==◌, inl, inr,
}
use app_bitcoin_new.Buffer.{Buffer, buffer_create, buffer_get_cur}
use app_bitcoin_new.Buffer.Invariant.{IsValid}
use app_bitcoin_new.Buffer.Stream.{remaining, all_remaining}
use app_bitcoin_new.Client.{
  Context, Call, failed, done, interrupt, check, set_response, add_to_response, finalize_response,
  ◌>>=◌, >>=-eq-done, sw_interrupted_execution,
}
use app_bitcoin_new.Client.Received.{Ready, interrupt-Ready}
use app_bitcoin_new.Client.LeafHash.{ccmd_get_more_elements}
use app_bitcoin_new.Client.LeafHash.Proof.{split_done}
use app_bitcoin_new.Client.Preimage.{more_bytes}
use app_bitcoin_new.Client.Preimage.Sound.{check-Ready, more_bytes-Chunk}
use app_bitcoin_new.Client.Stream.{after_callback, part_at, calls, stream_rounds}

-- A valid buffer with the cursor at its start.
abbrev pub IsWhole : Buffer → Type 0
IsWhole b = IsValid b × (b.offset ≡ 0)

pub after_callback-eq-done :
    {A B : Type 0} (o : Option A) (go : A → Call B) {b : B} {dc : Context}
    → after_callback o go ≡ done b dc
    → (a : A) × (o ≡ some a) × (go a ≡ done b dc)
unfolding after_callback
after_callback-eq-done none go e = cc
after_callback-eq-done (some a) go e = (a, refl, e)

-- A part of bytes that are there.
pub part_at-IsWhole :
    (dc : Context) (skip n : ℕ)
    → n < 2 ^ 32
    → length (take n (drop skip (buffer_get_cur dc.read_buffer))) ≡ n
    → IsWhole (part_at dc skip n)
      × (remaining (part_at dc skip n) ≡ take n (drop skip (buffer_get_cur dc.read_buffer)))
unfolding part_at buffer_create
part_at-IsWhole dc skip n small len =
    let l = length-take {0} n (drop skip (buffer_get_cur dc.read_buffer)) in
    let size : n - 0 ≡ n = omega arith in
    (
      (record { within = omega arith; region = omega (arith, l, len); small = small }, refl),
      rw size refl,
    )

module _ {State : Type 0} (callback : Buffer → State → Option State) where
  -- What the loop gives to the callback.
  unfoldable pub Parts : ℕ → List ℕ → State → List ℕ → State → Type 0
  Parts rem hashed state hashed' state' =
      (parts : List Buffer) × All IsWhole parts
      × (calls callback parts state ≡ some state')
      × (hashed' ≡ hashed ++ all_remaining parts)
      × (length (all_remaining parts) ≡ rem)

  pub calls-cons :
      (part : Buffer) (parts : List Buffer) (state state1 state2 : State)
      → callback part state ≡ some state1
      → calls callback parts state1 ≡ some state2
      → calls callback (part ∷ parts) state ≡ some state2
  unfolding calls
  calls-cons part parts state state1 state2 e r = rw (e, calls) r

  Parts-cons :
      (rem n : ℕ) (hashed chunk : List ℕ) (part : Buffer) (state state1 : State) (hashed' : List ℕ)
      (state' : State)
      → n ≤ rem
      → length chunk ≡ n
      → IsWhole part
      → remaining part ≡ chunk
      → callback part state ≡ some state1
      → Parts (rem - n) (hashed ++ chunk) state1 hashed' state'
      → Parts rem hashed state hashed' state'
  unfolding Parts
  Parts-cons rem n hashed chunk part state state1 hashed' state' le len w same e
        (parts, ws, run, bytes, total) =
      let l = length-append {0} (remaining part) (all_remaining parts) in
      (
        part ∷ parts,
        (w, ws),
        calls-cons part parts state state1 state' e run,
        bytes
            ∙ (append_assoc hashed chunk (all_remaining parts)
                ∙ ap (λ (c : List ℕ). hashed ++ (c ++ all_remaining parts)) (sym same)),
        omega (arith, l, total, len, ap (λ (c : List ℕ). length c) same),
      )

  pub stream_rounds-Parts :
      (fuel rem : ℕ) (hashed : List ℕ) (state : State) (dc : Context) (hashed' : List ℕ)
      (state' : State) (dc' : Context)
      → rem < 2 ^ 32
      → Ready dc
      → stream_rounds callback fuel rem hashed state dc ≡ done (hashed', state') dc'
      → Parts rem hashed state hashed' state'
  unfolding stream_rounds set_response add_to_response finalize_response
  stream_rounds-Parts zero rem hashed state dc hashed' state' dc' few (v, fits) e = cc
  stream_rounds-Parts (suc fuel) rem hashed state dc hashed' state' dc' few (v, fits) e =
      let chunk : Context → List ℕ = λ d. buffer_get_cur d.read_buffer in
      let again : ℕ × ℕ → Context → Call (List ℕ × State) = λ n d.
        after_callback (callback (part_at d 0 n.0) state) (λ state1.
          stream_rounds callback fuel (rem - n.0) (hashed ++ take n.0 (chunk d)) state1 d) in
      let bounded : ℕ × ℕ → Context → Call (List ℕ × State) =
        λ n d. elim (ltb rem n.0) [ true ↦ failed 8 d | false ↦ again n d ] in
      let single : ℕ × ℕ → Context → Call (List ℕ × State) =
        λ n d. elim (n.1 == 1) [ true ↦ bounded n d | false ↦ failed 7 d ] in
      let checked : Unit {0} → Context → Call (List ℕ × State) =
        λ _ d. check 6 (more_bytes d.read_buffer) d >>= single in
      let asked =
        interrupt 5 (set_response (ccmd_get_more_elements ∷ []) sw_interrupted_execution dc) in
      elim (split_done (rem == 0) (done (hashed, state) dc) (asked >>= checked) e) [
        | inl (end, stop) ↦
            unfold Parts in
            let same_hashed : hashed ≡ hashed' = cc in
            let same_state : state ≡ state' = cc in
            (
              [],
              tt,
              unfold calls in ap some same_state,
              sym same_hashed ∙ sym (append-nil hashed),
              ground arith,
            )
        | inr (_, run) ↦
            let (u, dc0, a, e0) = >>=-eq-done asked checked run in
            let (n, dc1, c, e1) =
              >>=-eq-done (check 6 (more_bytes dc0.read_buffer) dc0) single e0 in
            let ready0 = interrupt-Ready 5 _ u dc0 fits a in
            let (ready, len) =
              check-Ready (λ g. g.0 * g.1) 6 (more_bytes dc0.read_buffer) dc0 n dc1
                (more_bytes-Chunk dc0.read_buffer ready0.0) ready0 c in
            elim (split_done (n.1 == 1) (bounded n dc1) (failed 7 dc1) e1) [
              | inr (_, bad) ↦ cc
              | inl (one, e2) ↦ elim (split_done (ltb rem n.0) (failed 8 dc1) (again n dc1) e2) [
                | inl (_, bad) ↦ cc
                | inr (small, e3) ↦
                    let n1 : n.1 ≡ 1 = ground arith in
                    let m : n.0 * n.1 ≡ n.0 = rw n1 (omega arith) in
                    let len' : length (take n.0 (chunk dc1)) ≡ n.0 = rw m at len in
                    let le : n.0 ≤ rem = ground arith in
                    let (state1, called, e4) =
                      after_callback-eq-done (callback (part_at dc1 0 n.0) state) _ e3 in
                    let (w, same) = part_at-IsWhole dc1 0 n.0 (omega arith) len' in
                    Parts-cons rem n.0 hashed (take n.0 (chunk dc1)) (part_at dc1 0 n.0) state
                      state1 hashed' state' le len' w same called
                      (stream_rounds-Parts fuel (rem - n.0) _ state1 dc1 hashed' state' dc'
                        (omega arith) ready e4)
              ]
            ]
      ]
