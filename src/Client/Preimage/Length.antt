-- ===== src/Client/Preimage/Length.antt =====
-- The caller's array keeps its length, and the element that is left fits in it.
use app_bitcoin_new.Prelude.{
  ℕ, zero, suc, ◌+◌, ◌-◌, ◌^◌, ◌≤◌, ◌<◌, ◌≡◌, refl, sym, ap, ◌∙◌, arith, List, [], ◌∷◌, ◌++◌,
  length, take, Bool, true, false, ◌||◌, ltb, ◌==◌, if◌then◌else◌, inl, inr,
}
use app_bitcoin_new.Buffer.{Buffer, buffer_create, buffer_get_cur, buffer_write_bytes}
use app_bitcoin_new.Buffer.Invariant.{IsValid, run_op, run_ops, run_ops-Kept, write_bytes}
use app_bitcoin_new.Client.{
  Context, Call, failed, done, interrupt, check, set_response, ◌>>=◌, >>=-eq-done,
  sw_interrupted_execution,
}
use app_bitcoin_new.Client.LeafHash.{ccmd_get_more_elements, call_get_merkle_leaf_hash}
use app_bitcoin_new.Client.LeafHash.Proof.{split_done}
use app_bitcoin_new.Client.Preimage.Sound.{compare_hash-eq-done}
use app_bitcoin_new.Client.Preimage.{
  send_preimage_request, preimage_start, more_bytes, preimage_rounds, compare_hash,
  call_get_merkle_preimage, call_get_merkle_leaf_element,
}

-- A valid buffer on a region of `l` bytes.
HasLength : ℕ → Buffer → Type 0
HasLength l b = IsValid b × (length b.ptr ≡ l)

write_bytes-HasLength :
    (l : ℕ) (b : Buffer) (src : List ℕ) (n : ℕ)
    → HasLength l b
    → HasLength l (buffer_write_bytes b src n).1
unfolding HasLength run_ops run_op
write_bytes-HasLength l b src n (v, len) =
    let (v', same) = run_ops-Kept (write_bytes src n ∷ []) b v in (v', same.length_lem ∙ len)

module _ (code l : ℕ) (source : Context → List ℕ) where
  preimage_rounds-HasLength :
      (fuel rem : ℕ) (hashed : List ℕ) (b : Buffer) (dc : Context) (got : List ℕ × Buffer)
      (dc' : Context)
      → HasLength l b
      → preimage_rounds code source fuel rem hashed b dc ≡ done got dc'
      → HasLength l got.1
  unfolding preimage_rounds
  preimage_rounds-HasLength zero rem hashed b dc got dc' h e = cc
  preimage_rounds-HasLength (suc fuel) rem hashed b dc got dc' h e =
      let chunk : Context → List ℕ = λ d. buffer_get_cur d.read_buffer in
      let again : ℕ × ℕ → Context → Call (List ℕ × Buffer) = λ n d.
        preimage_rounds code source fuel (rem - n.0) (hashed ++ take n.0 (chunk d))
          (buffer_write_bytes b (source d) n.0).1 d in
      let bounded : ℕ × ℕ → Context → Call (List ℕ × Buffer) =
        λ n d. elim (ltb rem n.0) [ true ↦ failed (code + 3) d | false ↦ again n d ] in
      let single : ℕ × ℕ → Context → Call (List ℕ × Buffer) =
        λ n d. elim (n.1 == 1) [ true ↦ bounded n d | false ↦ failed (code + 2) d ] in
      let checked : Unit {0} → Context → Call (List ℕ × Buffer) =
        λ _ d. check (code + 1) (more_bytes d.read_buffer) d >>= single in
      let asked =
        interrupt code (set_response (ccmd_get_more_elements ∷ []) sw_interrupted_execution dc) in
      elim (split_done (rem == 0) (done (hashed, b) dc) (asked >>= checked) e) [
        | inl (end, stop) ↦ let same : b ≡ got.1 = cc in rw⁻¹ same h
        | inr (_, run) ↦
            let (u, dc0, a, e0) = >>=-eq-done asked checked run in
            let (n, dc1, c, e1) =
              >>=-eq-done (check (code + 1) (more_bytes dc0.read_buffer) dc0) single e0 in
            elim (split_done (n.1 == 1) (bounded n dc1) (failed (code + 2) dc1) e1) [
              | inr (_, bad) ↦ cc
              | inl (one, e2) ↦
                  elim (split_done (ltb rem n.0) (failed (code + 3) dc1) (again n dc1) e2) [
                    | inl (_, bad) ↦ cc
                    | inr (small, e3) ↦
                        preimage_rounds-HasLength fuel (rem - n.0) (hashed ++ take n.0 (chunk dc1))
                          _ dc1 got dc' (write_bytes-HasLength l b (source dc1) n.0 h) e3
                  ]
            ]
      ]

pub passed :
    {A : Type 0} (b : Bool) (code : ℕ) (d : Context) (go : Call A) {a : A} {dc : Context}
    → (if b then failed code d else go) ≡ done a dc
    → (b ≡ false) × (go ≡ done a dc)
passed true code d go e = cc
passed false code d go e = (refl, e)

module _ (sha256 : List ℕ → List ℕ) (out_address : ℕ) (out : List ℕ) (out_len : ℕ) where
  -- Where the array has `out_len` bytes, an element that is left fits in it.
  pub call_get_merkle_leaf_element-fits :
      (root : List ℕ) (size index : ℕ) (dc : Context) (n : ℕ) (out' : List ℕ) (dc' : Context)
      → out_len ≤ length out
      → out_len < 2 ^ 32
      → call_get_merkle_leaf_element sha256 out_address out out_len root size index dc
        ≡ done (n, out') dc'
      → (n ≤ out_len) × (length out' ≡ length out)
  unfolding call_get_merkle_leaf_element call_get_merkle_preimage buffer_create HasLength
  call_get_merkle_leaf_element-fits root size index dc n out' dc' room small e =
      let (leaf_hash, dca, _, ea) =
        >>=-eq-done (call_get_merkle_leaf_hash sha256 size index root dc) _ e in
      let (u, dcb, _, eb) = >>=-eq-done (interrupt 1 (send_preimage_request leaf_hash dca)) _ ea in
      let (start, dc1, _, ec) = >>=-eq-done (check 2 (preimage_start dcb.read_buffer) dcb) _ eb in
      let (filled, ed) = passed (start.0 == 0 || start.1 == 0) 3 dc1 _ ec in
      let (fits, ee) = passed (ltb out_len (start.0 - 1)) 4 dc1 _ ed in
      let (whole, ef) = passed (ltb start.0 start.1) 5 dc1 _ ee in
      let (got, dc2, r, eg) =
        >>=-eq-done _ (compare_hash sha256 out_address out out_len 10 leaf_hash (start.0 - 1)) ef in
      let new : HasLength (length out) (buffer_create out_address out out_len) =
        (record { within = omega arith; region = room; small = small }, refl) in
      let (v, len) =
        preimage_rounds-HasLength 6 (length out) _ _ _ _ _ dc1 got dc2
          (write_bytes-HasLength (length out) (buffer_create out_address out out_len) _
            (start.1 - 1) new)
          r in
      let (_, is_n, is_out) =
        compare_hash-eq-done sha256 out_address out out_len 10 leaf_hash (start.0 - 1) got dc2 n
          out' dc' eg in
      (ground (arith, fits, is_n), sym (ap (λ (xs : List ℕ). length xs) is_out) ∙ len)
