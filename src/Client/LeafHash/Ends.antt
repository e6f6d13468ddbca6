-- ===== src/Client/LeafHash/Ends.antt =====
-- The rounds of `call_get_merkle_leaf_hash` come to an end by the number of elements, not by the
-- number of messages.
use app_bitcoin_new.Prelude.{
  ℕ, zero, suc, ◌+◌, ◌-◌, ◌^◌, ◌≤◌, ◌<◌, ◌≡◌, ◌≢◌, refl, ap, arith, List, [], ◌∷◌, Option, none,
  some, true, false, not, ◌||◌, ◌==◌, ltb, sym, All, inl, inr, Bool-cases,
}
use mathlib.Core.Path.{subst}
use native.Mathlib.Decide.{dec_lt}
use app_bitcoin_new.Buffer.{Buffer, buffer_get_cur, buffer_can_read, buffer_create, buffer_read_u8}
use app_bitcoin_new.Bytes.{at}
use app_bitcoin_new.Varint.RoundTrip.{at-drop}
use app_bitcoin_new.Merkle.{Direction, invalid, left, right, merkle_get_ith_direction}
use app_bitcoin_new.Merkle.Tree.{Tree, size, IsMerkle}
use app_bitcoin_new.Merkle.Ways.{merkle_get_ith_direction-way}
use app_bitcoin_new.Client.{
  Context, Call, Incoming, io_error, received, Command, apdu_parser, accept, exchange,
  process_interruption, diverges, failed, done, interrupt, check, set_response, add_to_response,
  finalize_response, ◌>>=◌, check-eq-done, sw_interrupted_execution,
}
use app_bitcoin_new.Client.LeafHash.{
  ccmd_get_more_elements, more_elements, skip_hash, combine_step, proof_elements, proof_rounds,
}
use app_bitcoin_new.Client.LeafHash.Proof.{combine, combine_step-eq-done}
use app_bitcoin_new.Client.LeafHash.Sound.{direction-beyond}

abbrev pub Ends : {A : Type 0} → Call A → Type 0
Ends c = c ≢ diverges

>>=-Ends :
    {A B : Type 0} (m : Call A) (f : A → Context → Call B)
    → Ends m
    → ((a : A) (dc : Context) → m ≡ done a dc → Ends (f a dc))
    → Ends (m >>= f)
>>=-Ends diverges f h g = absurd (h refl)
>>=-Ends (failed code dc) f h g = λ q. cc
>>=-Ends (done a dc) f h g = g a dc refl

check-Ends :
    {A : Type 0} (code : ℕ) (o : Option (A × Buffer)) (dc : Context) → Ends (check code o dc)
unfolding check
check-Ends code none dc = λ q. cc
check-Ends code (some (a, b)) dc = λ q. cc

interrupt-Ends : (code : ℕ) (dc : Context) → Ends (interrupt code dc)
unfolding interrupt
interrupt-Ends code dc = elim (Bool-cases (process_interruption dc).0) [
  | inl ok ↦ rw ok (λ q. cc)
  | inr bad ↦ rw bad (λ q. cc)
]

accept-incoming : (o : Option Command) (dc : Context) → (accept o dc).1.incoming ≡ dc.incoming
unfolding accept finalize_response
accept-incoming none dc = refl
accept-incoming (some cmd) dc = elim (Bool-cases (not (cmd.cla == 0xF8) || not (cmd.ins == 0x01))) [
  | inl bad ↦ rw bad refl
  | inr ok ↦ rw ok refl
]

-- A message with at least one element: the number of elements is the byte behind the header.
abbrev pub Brings : Incoming → Type 0
Brings io_error = Unit {0}
Brings (received buf input_len) = 1 ≤ at buf 5

-- A buffer that starts with the data of such a message, if it has any data.
Starts : Buffer → Type 0
Starts b = buffer_can_read b 1 ≡ true → 1 ≤ at b.ptr b.offset

accept-Starts :
    (buf : List ℕ) (n : ℕ) (dc : Context)
    → 1 ≤ at buf 5
    → (accept (apdu_parser buf n) dc).0 ≡ true
    → Starts (accept (apdu_parser buf n) dc).1.read_buffer
unfolding accept apdu_parser Starts buffer_create buffer_can_read
accept-Starts buf n dc brings e = elim (Bool-cases (ltb n 5 || not (n - 5 == at buf 4))) [
  | inl bad ↦ let e' = rw bad at e in cc
  | inr ok ↦ elim (Bool-cases (not (at buf 0 == 0xF8) || not (at buf 1 == 0x01))) [
    | inl bad ↦ let e' = rw (ok, bad) at e in cc
    | inr good ↦ elim (Bool-cases (ltb 0 (at buf 4))) [
      | inl full ↦
          rw (ok, good, full) (λ can. let behind = at-drop 5 0 buf in omega (arith, behind))
      | inr empty ↦
          rw (ok, good, empty)
            (λ can. absurd (let none_left : at buf 4 ≡ 0 = ground arith in ground arith))
    ]
  ]
]

exchange-Starts :
    (ms : List Incoming) (dc : Context)
    → All Brings ms
    → (exchange ms dc).0 ≡ true
    → Starts (exchange ms dc).1.read_buffer × All Brings (exchange ms dc).1.incoming
unfolding exchange
exchange-Starts [] dc brings e = cc
exchange-Starts (io_error ∷ ms) dc brings e = cc
exchange-Starts (received buf n ∷ ms) dc (brings, rest) e =
    let dc0 = record dc { incoming = ms } in
    (
      accept-Starts buf n dc0 brings e,
      subst (All Brings) (sym (accept-incoming (apdu_parser buf n) dc0)) rest,
    )

interrupt-Starts :
    (code : ℕ) (dc : Context) (u : Unit {0}) (dc' : Context)
    → All Brings dc.incoming
    → interrupt code dc ≡ done u dc'
    → Starts dc'.read_buffer × All Brings dc'.incoming
unfolding interrupt process_interruption
interrupt-Starts code dc u dc' brings e = elim (Bool-cases (process_interruption dc).0) [
  | inr bad ↦ let e' = rw bad at e in cc
  | inl ok ↦
      let e' = rw ok at e in
      let same : (process_interruption dc).1 ≡ dc' = cc in
      subst (λ (d : Context). Starts d.read_buffer × All Brings d.incoming) same
        (exchange-Starts dc.incoming dc brings ok)
]

read_u8-first :
    (b : Buffer)
    → (buffer_read_u8 b).0 ≡ true
    → (buffer_can_read b 1 ≡ true) × ((buffer_read_u8 b).1 ≡ at b.ptr b.offset)
unfolding buffer_read_u8
read_u8-first b e = elim (Bool-cases (buffer_can_read b 1)) [
  | inl can ↦ (can, rw can refl)
  | inr bad ↦ let e' = rw bad at e in cc
]

more_elements-first :
    (p c : ℕ) (b : Buffer) (n : ℕ) (b' : Buffer)
    → more_elements p c b ≡ some (n, b')
    → ((buffer_read_u8 b).0 ≡ true) × ((buffer_read_u8 b).1 ≡ n) × (c + n ≤ p)
unfolding more_elements
more_elements-first p c b n b' e = ground arith

-- Such an answer has an element, and no more than the proof has left.
more_elements_bounds :
    (p c : ℕ) (b : Buffer) (n : ℕ) (b' : Buffer)
    → Starts b
    → more_elements p c b ≡ some (n, b')
    → (1 ≤ n) × (c + n ≤ p)
unfolding Starts
more_elements_bounds p c b n b' starts e =
    let (ok, is, fits) = more_elements-first p c b n b' e in
    let (can, first) = read_u8-first b ok in let some_element = starts can in (omega arith, fits)

combine_step-Ends :
    (sha256 : List ℕ → List ℕ) (o : Option Direction) (h s : List ℕ) (dc : Context)
    (next : List ℕ → Call (ℕ × List ℕ))
    → o ≢ none
    → ((h' : List ℕ) → Ends (next h'))
    → Ends (combine_step sha256 o h s dc next)
unfolding combine_step
combine_step-Ends sha256 none h s dc next o g = absurd (o refl)
combine_step-Ends sha256 (some left) h s dc next o g = g _
combine_step-Ends sha256 (some right) h s dc next o g = g _
combine_step-Ends sha256 (some invalid) h s dc next o g = λ q. cc

direction-some :
    {A : Type 0} (t : Tree A) (index i : ℕ)
    → IsMerkle t
    → size t ≤ 2 ^ 31
    → merkle_get_ith_direction (size t) index i ≢ none
direction-some t index i m small e = elim (dec_lt index (size t)) [
  | yes lt ↦ let w = merkle_get_ith_direction-way t index i m small lt in cc
  | no beyond ↦ let w = direction-beyond (size t) index i (omega arith) in cc
]

module _ (sha256 : List ℕ → List ℕ) (t : Tree (List ℕ)) (index : ℕ) (m : IsMerkle t)
    (small : size t ≤ 2 ^ 31) where
  proof_elements-Ends :
      (n p c : ℕ) (h : List ℕ) (dc : Context)
      → Ends (proof_elements sha256 (size t) index n p c h dc)
  unfolding proof_elements
  proof_elements-Ends zero p c h dc = λ q. cc
  proof_elements-Ends (suc n) p c h dc =
      combine_step-Ends sha256 _ h _ dc _ (direction-some t index (p - c - 1) m small)
        (λ h'. proof_elements-Ends n p (c + 1) h' (skip_hash dc))

  proof_elements-Kept :
      (n p c : ℕ) (h : List ℕ) (dc : Context) (got : ℕ × List ℕ) (dc' : Context)
      → proof_elements sha256 (size t) index n p c h dc ≡ done got dc'
      → (got.0 ≡ c + n) × (dc.incoming ≡ dc'.incoming)
  unfolding proof_elements skip_hash
  proof_elements-Kept zero p c h dc got dc' e =
      let same : dc ≡ dc' = cc in
      let step : c ≡ got.0 = cc in (omega arith, ap (λ (d : Context). d.incoming) same)
  proof_elements-Kept (suc n) p c h dc got dc' e =
      let s = buffer_get_cur dc.read_buffer in
      let (d, _, _, run) = combine_step-eq-done sha256 _ h s dc _ e in
      let (count, same) =
        proof_elements-Kept n p (c + 1) (combine sha256 d h s) (skip_hash dc) got dc' run in
      (omega arith, same)

  -- For the size of a Merkle tree of at most 2 ^ 31 leaves, and a client that sends any number of
  -- messages, each with at least one element: from a step and a number of elements within the proof,
  -- the rounds of `call_get_merkle_leaf_hash` return, on any fuel above the number of elements that
  -- the proof still has behind these.
  pub proof_rounds-Ends :
      (fuel n p c : ℕ) (h : List ℕ) (dc : Context)
      → c + n ≤ p
      → p - (c + n) < fuel
      → All Brings dc.incoming
      → Ends (proof_rounds sha256 (size t) index fuel n p c h dc)
  unfolding proof_rounds set_response add_to_response finalize_response
  proof_rounds-Ends zero n p c h dc within enough brings = absurd (omega arith)
  proof_rounds-Ends (suc fuel) n p c h dc within enough brings =
      >>=-Ends (proof_elements sha256 (size t) index n p c h dc) _ (proof_elements-Ends n p c h dc)
        (λ got dc0 e0.
          let (step, same) = proof_elements-Kept n p c h dc got dc0 e0 in
          round (proof_rounds-Ends fuel) got dc0 step (subst (All Brings) same brings))
    where
      round :
          ((n' p' c' : ℕ) (h' : List ℕ) (d : Context)
            → c' + n' ≤ p'
            → p' - (c' + n') < fuel
            → All Brings d.incoming
            → Ends (proof_rounds sha256 (size t) index fuel n' p' c' h' d))
          → (got : ℕ × List ℕ) (dc0 : Context) → got.0 ≡ c + n
          → All Brings dc0.incoming
          → Ends (elim (got.0 == p) [
            | true ↦ done got.1 dc0
            | false ↦
                interrupt 1
                  (set_response (ccmd_get_more_elements ∷ []) sw_interrupted_execution dc0)
                >>= λ _ dc1. check 1 (more_elements p got.0 dc1.read_buffer) dc1 >>= λ n' dc2.
                    proof_rounds sha256 (size t) index fuel n' p got.0 got.1 dc2
          ])
      round again got dc0 step brings0 = elim (Bool-cases (got.0 == p)) [
        | inl end ↦ rw end (λ q. cc)
        | inr more ↦
            let request = set_response (ccmd_get_more_elements ∷ []) sw_interrupted_execution dc0 in
            rw more (
              >>=-Ends (interrupt 1 request) _ (interrupt-Ends 1 request) (λ u dc1 e1.
                >>=-Ends (check 1 (more_elements p got.0 dc1.read_buffer) dc1) _
                  (check-Ends 1 _ dc1)
                  (λ n' dc2 e2.
                    let (b, answer, is) =
                      check-eq-done 1 (more_elements p got.0 dc1.read_buffer) dc1 e2 in
                    let (starts, brings1) = interrupt-Starts 1 request u dc1 brings0 e1 in
                    let (some_element, fits) =
                      more_elements_bounds p got.0 dc1.read_buffer n' b starts answer in
                    again n' p got.0 got.1 dc2 fits (omega arith)
                      (subst (λ (d : Context). All Brings d.incoming) (sym is) brings1))))
      ]
