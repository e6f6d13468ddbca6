-- ===== src/Client/LeafHash/Messages.antt =====
-- The messages that are left after a successful `call_get_merkle_leaf_hash`.
use app_bitcoin_new.Prelude.{
  ℕ, zero, suc, ◌+◌, ◌≡◌, sym, List, [], ◌∷◌, length, Option, ◌==◌, if◌then◌else◌, inl, inr, All,
  Bool-cases,
}
use mathlib.Core.Path.{subst}
use app_bitcoin_new.Buffer.{Buffer, buffer_get_cur}
use app_bitcoin_new.Client.{
  Context, Call, failed, done, interrupt, check, set_response, add_to_response, finalize_response,
  ◌>>=◌, >>=-eq-done, check-eq-done, sw_interrupted_execution,
}
use app_bitcoin_new.Client.Received.{Fits, interrupt-Ready}
use app_bitcoin_new.Client.LeafHash.{
  memcmp_eq, ccmd_get_more_elements, more_elements, skip_hash, proof_start, proof_elements,
  proof_rounds, send_proof_request, call_get_merkle_leaf_hash,
}
use app_bitcoin_new.Client.LeafHash.Proof.{combine, combine_step-eq-done, split_done}

-- All that is still to come fits.
abbrev pub AllFit : Context → Type 0
AllFit dc = All Fits dc.incoming

check-AllFit :
    {A : Type 0} (code : ℕ) (o : Option (A × Buffer)) (dc : Context) (a : A) (dc' : Context)
    → AllFit dc
    → check code o dc ≡ done a dc'
    → AllFit dc'
check-AllFit code o dc a dc' fits e =
    let (b, _, is) = check-eq-done code o dc e in subst AllFit (sym is) fits

module _ (sha256 : List ℕ → List ℕ) (tree_size leaf_index : ℕ) where
  proof_elements-AllFit :
      (n p c : ℕ) (h : List ℕ) (dc : Context) (got : ℕ × List ℕ) (dc' : Context)
      → AllFit dc
      → proof_elements sha256 tree_size leaf_index n p c h dc ≡ done got dc'
      → AllFit dc'
  unfolding proof_elements skip_hash
  proof_elements-AllFit zero p c h dc got dc' fits e =
      let same : dc ≡ dc' = cc in subst AllFit same fits
  proof_elements-AllFit (suc n) p c h dc got dc' fits e =
      let s = buffer_get_cur dc.read_buffer in
      let (d, _, _, run) = combine_step-eq-done sha256 _ h s dc _ e in
      proof_elements-AllFit n p (c + 1) (combine sha256 d h s) (skip_hash dc) got dc' fits run

  proof_rounds-AllFit :
      (fuel n p c : ℕ) (h : List ℕ) (dc : Context) (top : List ℕ) (dc' : Context)
      → AllFit dc
      → proof_rounds sha256 tree_size leaf_index fuel n p c h dc ≡ done top dc'
      → AllFit dc'
  unfolding proof_rounds set_response add_to_response finalize_response
  proof_rounds-AllFit zero n p c h dc top dc' fits e = cc
  proof_rounds-AllFit (suc fuel) n p c h dc top dc' fits e =
      let ((c1, h1), dc0, elements, rest) = >>=-eq-done _ _ e in
      let fits0 = proof_elements-AllFit n p c h dc (c1, h1) dc0 fits elements in
      let go_on : ℕ → Context → Call (List ℕ) =
        λ n' dc2. proof_rounds sha256 tree_size leaf_index fuel n' p c1 h1 dc2 in
      let checked : Unit {0} → Context → Call (List ℕ) =
        λ _ dc1. check 1 (more_elements p c1 dc1.read_buffer) dc1 >>= go_on in
      let request = set_response (ccmd_get_more_elements ∷ []) sw_interrupted_execution dc0 in
      elim (split_done (c1 == p) (done h1 dc0) (interrupt 1 request >>= checked) rest) [
        | inl (end, stop) ↦ let same : dc0 ≡ dc' = cc in subst AllFit same fits0
        | inr (_, run) ↦
            let (u, dc1, a, rest1) = >>=-eq-done (interrupt 1 request) checked run in
            let (n', dc2, b, rest2) =
              >>=-eq-done (check 1 (more_elements p c1 dc1.read_buffer) dc1) go_on rest1 in
            let fits1 = (interrupt-Ready 1 request u dc1 fits0 a).1 in
            proof_rounds-AllFit fuel n' p c1 h1 dc2 top dc'
              (check-AllFit 1 (more_elements p c1 dc1.read_buffer) dc1 n' dc2 fits1 b) rest2
      ]

  pub call_get_merkle_leaf_hash-AllFit :
      (root : List ℕ) (dc : Context) (out : List ℕ) (dc' : Context)
      → AllFit dc
      → call_get_merkle_leaf_hash sha256 tree_size leaf_index root dc ≡ done out dc'
      → AllFit dc'
  unfolding call_get_merkle_leaf_hash send_proof_request add_to_response finalize_response
  call_get_merkle_leaf_hash-AllFit root dc out dc' fits e =
      let finish : List ℕ → List ℕ → Context → Call (List ℕ) =
        λ first top d. if memcmp_eq 32 root top then done first d else failed 1 d in
      let run : (List ℕ × ℕ × ℕ) → Context → Call (List ℕ) = λ start d.
        proof_rounds sha256 tree_size leaf_index (suc (length d.incoming)) start.2 start.1 0 start.0
          d
        >>= finish start.0 in
      let checked : Unit {0} → Context → Call (List ℕ) =
        λ _ d. check 1 (proof_start d.read_buffer) d >>= run in
      let request = send_proof_request root tree_size leaf_index dc in
      let (u, dc0, asked, e0) = >>=-eq-done (interrupt 1 request) checked e in
      let (start, dc1, got, e1) = >>=-eq-done (check 1 (proof_start dc0.read_buffer) dc0) run e0 in
      let (top, dc2, rounds, e2) = >>=-eq-done _ (finish start.0) e1 in
      let fits1 =
        check-AllFit 1 (proof_start dc0.read_buffer) dc0 start dc1
          (interrupt-Ready 1 request u dc0 fits asked).1 got in
      let fits2 = proof_rounds-AllFit _ start.2 start.1 0 start.0 dc1 top dc2 fits1 rounds in
      finish-AllFit root start.0 top dc2 out dc' fits2 e2
    where
      finish-AllFit :
          (root first top : List ℕ) (dc : Context) (out : List ℕ) (dc' : Context)
          → AllFit dc
          → (if memcmp_eq 32 root top then done first dc else failed 1 dc) ≡ done out dc'
          → AllFit dc'
      finish-AllFit root first top dc out dc' fits e = elim (Bool-cases (memcmp_eq 32 root top)) [
        | inl same ↦ let e' = rw same at e in let is : dc ≡ dc' = cc in subst AllFit is fits
        | inr other ↦ let e' = rw other at e in cc
      ]
