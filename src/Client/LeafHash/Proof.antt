-- ===== src/Client/LeafHash/Proof.antt =====
-- What a proof that `call_get_merkle_leaf_hash` has gone through amounts to: a list of siblings from the
-- root down, with the directions of the leaf's way.
use app_bitcoin_new.Prelude.{
  ℕ, zero, suc, ◌+◌, ◌-◌, ◌≤◌, ◌≡◌, ◌≢◌, refl, sym, ap, ◌∙◌, arith, List, [], ◌∷◌, ◌++◌, Option,
  none, some, Bool, true, false, length, length-append, ◌==◌, ◌⊎◌, inl, inr,
}
use app_bitcoin_new.Buffer.{Buffer, buffer_get_cur}
use app_bitcoin_new.Merkle.{
  Direction, invalid, left, right, merkle_combine_hashes, merkle_get_ith_direction,
}
use app_bitcoin_new.Client.{
  Context, Call, done, ◌>>=◌, >>=-eq-done, interrupt, check, check-eq-done, set_response,
  sw_interrupted_execution,
}
use app_bitcoin_new.Client.LeafHash.{
  combine_step, proof_elements, proof_rounds, more_elements, skip_hash, ccmd_get_more_elements,
}
use mathlib.Core.Path.{subst}

-- A direction and the sibling's hash on the other side.
abbrev pub Step : Type 0
Step = Direction × List ℕ

module _ (sha256 : List ℕ → List ℕ) where
  abbrev pub combine : Direction → List ℕ → List ℕ → List ℕ
  combine left h s = merkle_combine_hashes sha256 h s
  combine right h s = merkle_combine_hashes sha256 s h
  combine invalid h s = h

  -- The hash at the top, from the steps below it, the top one first, and the hash at their end.
  unfoldable pub climb : List Step → List ℕ → List ℕ
  climb [] h = h
  climb ((d, s) ∷ steps) h = combine d (climb steps h) s

  climb-append : (xs ys : List Step) (h : List ℕ) → climb (xs ++ ys) h ≡ climb xs (climb ys h)
  unfolding climb
  climb-append [] ys h = refl
  climb-append ((d, s) ∷ xs) ys h = rw (climb-append xs ys h)

module _ (tree_size leaf_index : ℕ) where
  -- The steps go in the directions of the leaf's way from depth `i` on.
  abbrev pub Follows : ℕ → List Step → Type 0
  Follows i [] = Unit {0}
  Follows i ((d, s) ∷ steps) =
      (merkle_get_ith_direction tree_size leaf_index i ≡ some d)
      × (d ≢ invalid)
      × Follows (suc i) steps

  Follows-append :
      (i : ℕ) (xs ys : List Step) → Follows i xs → Follows (i + length xs) ys → Follows i (xs ++ ys)
  Follows-append i [] ys p q = let e : i + 0 ≡ i = omega arith in rw e at q
  Follows-append i ((d, s) ∷ xs) ys (a, b, p) q =
      let e : i + suc (length xs) ≡ suc i + length xs = omega arith in
      (a, b, Follows-append (suc i) xs ys p (rw e at q))

pub combine_step-eq-done {ℓ} :
    {A : Type ℓ} (sha256 : List ℕ → List ℕ) (o : Option Direction) (h s : List ℕ) (dc : Context)
    (next : List ℕ → Call A) {a : A} {dc' : Context}
    → combine_step sha256 o h s dc next ≡ done a dc'
    → (d : Direction) × (o ≡ some d) × (d ≢ invalid) × (next (combine sha256 d h s) ≡ done a dc')
unfolding combine_step
combine_step-eq-done sha256 none h s dc next e = cc
combine_step-eq-done sha256 (some left) h s dc next e = (left, refl, (λ q. cc), e)
combine_step-eq-done sha256 (some right) h s dc next e = (right, refl, (λ q. cc), e)
combine_step-eq-done sha256 (some invalid) h s dc next e = cc

pub split_done :
    {A : Type 0} (b : Bool) (stop go : Call A) {a : A} {dc : Context}
    → (elim b [ true ↦ stop | false ↦ go ]) ≡ done a dc
    → ((b ≡ true) × (stop ≡ done a dc)) ⊎ ((b ≡ false) × (go ≡ done a dc))
split_done true stop go e = inl (refl, e)
split_done false stop go e = inr (refl, e)

module _ (sha256 : List ℕ → List ℕ) (tree_size leaf_index : ℕ) where
  -- The steps that lead from `cur_step` and `h` to `cur_step'` and `h'`.
  abbrev pub Climbs : ℕ → ℕ → List ℕ → ℕ → List ℕ → Type 0
  Climbs p c h c' h' =
      (steps : List Step) × (c' ≡ c + length steps)
      × Follows tree_size leaf_index (p - c') steps
      × (h' ≡ climb sha256 steps h)

  Climbs-trans :
      (p c c1 c2 : ℕ) (h h1 h2 : List ℕ)
      → c2 ≤ p
      → Climbs p c h c1 h1
      → Climbs p c1 h1 c2 h2
      → Climbs p c h c2 h2
  Climbs-trans p c c1 c2 h h1 h2 le (xs, ex, fx, hx) (ys, ey, fy, hy) =
      let e : p - c1 ≡ p - c2 + length ys = omega arith in
      (
        ys ++ xs,
        omega (arith, length-append ys xs),
        Follows-append tree_size leaf_index (p - c2) ys xs fy (rw e at fx),
        hy ∙ (ap (climb sha256 ys) hx ∙ sym (climb-append sha256 ys xs h)),
      )

  proof_elements-Climbs :
      (n p c : ℕ) (h : List ℕ) (dc : Context) (c' : ℕ) (h' : List ℕ) (dc' : Context)
      → c + n ≤ p
      → proof_elements sha256 tree_size leaf_index n p c h dc ≡ done (c', h') dc'
      → (c' ≡ c + n) × Climbs p c h c' h'
  unfolding proof_elements
  proof_elements-Climbs zero p c h dc c' h' dc' le e =
      (ground arith, ([], ground arith, tt, unfold climb in ground arith))
  proof_elements-Climbs (suc n) p c h dc c' h' dc' le e =
      let s = buffer_get_cur dc.read_buffer in
      let (d, way, valid, run) = combine_step-eq-done sha256 _ h s dc _ e in
      let next : p - (c + 1) ≡ p - c - 1 = omega arith in
      let (count, rest) =
        proof_elements-Climbs n p (c + 1) (combine sha256 d h s) (skip_hash dc) c' h' dc'
          (omega arith) run in
      let one : Climbs p c h (c + 1) (combine sha256 d h s) =
        ((d, s) ∷ [], omega arith, (rw next way, valid, tt), unfold climb in refl) in
      (omega arith, Climbs-trans p c (c + 1) c' h (combine sha256 d h s) h' (omega arith) one rest)

  more_elements-fits :
      (p c : ℕ) (b : Buffer) (n : ℕ) (b' : Buffer) → more_elements p c b ≡ some (n, b') → c + n ≤ p
  unfolding more_elements
  more_elements-fits p c b n b' e = ground arith

  -- From within the proof, rounds that succeed climb to its end.
  pub proof_rounds-Climbs :
      (fuel n p c : ℕ) (h : List ℕ) (dc : Context) (top : List ℕ) (dc' : Context)
      → c + n ≤ p
      → proof_rounds sha256 tree_size leaf_index fuel n p c h dc ≡ done top dc'
      → Climbs p c h p top
  unfolding proof_rounds
  proof_rounds-Climbs zero n p c h dc top dc' le e = cc
  proof_rounds-Climbs (suc fuel) n p c h dc top dc' le e =
      let ((c1, h1), dc0, elements, rest) = >>=-eq-done _ _ e in
      let (count, climbed) = proof_elements-Climbs n p c h dc c1 h1 dc0 le elements in
      let go_on : ℕ → Context → Call (List ℕ) =
        λ n' dc2. proof_rounds sha256 tree_size leaf_index fuel n' p c1 h1 dc2 in
      let checked : Unit {0} → Context → Call (List ℕ) =
        λ _ dc1. check 1 (more_elements p c1 dc1.read_buffer) dc1 >>= go_on in
      let asked =
        interrupt 1 (set_response (ccmd_get_more_elements ∷ []) sw_interrupted_execution dc0) in
      elim (split_done (c1 == p) (done h1 dc0) (asked >>= checked) rest) [
        | inl (end, stop) ↦ (
          climbed.0,
          ground arith,
          subst (λ (k : ℕ). Follows tree_size leaf_index (p - k) climbed.0) (ground arith)
              climbed.2,
          sym (ground arith) ∙ climbed.3,
        )
        | inr (_, run) ↦
            let (u, dc1, a, rest1) = >>=-eq-done asked checked run in
            let (n', dc2, b, rest2) =
              >>=-eq-done (check 1 (more_elements p c1 dc1.read_buffer) dc1) go_on rest1 in
            let (buffer, got, _) = check-eq-done 1 (more_elements p c1 dc1.read_buffer) dc1 b in
            let fits = more_elements-fits p c1 dc1.read_buffer n' buffer got in
            Climbs-trans p c c1 p h h1 top (omega arith) climbed
              (proof_rounds-Climbs fuel n' p c1 h1 dc2 top dc' fits rest2)
      ]
