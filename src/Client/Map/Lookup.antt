-- ===== src/Client/Map/Lookup.antt =====
-- What `call_get_merkle_leaf_index` finds.
use app_bitcoin_new.Prelude.{
  take-all, ℕ, ◌%◌, ◌^◌, ◌≤◌, ◌≡◌, sym, ap, ◌∙◌, arith, List, [], ◌∷◌, ◌++◌, some, Bool, true,
  false, not, ◌&&◌, take, length, ltb, ◌==◌, if◌then◌else◌, Bool-cases, inl, inr, ◌⊎◌, All,
}
use mathlib.Core.Path.{subst}
use app_bitcoin_new.Merkle.{Direction, invalid, left, right}
use app_bitcoin_new.Merkle.Tree.{Tree, leaf, node, size, IsMerkle, walk}
use app_bitcoin_new.Client.{
  Context, Call, diverges, failed, done, set_response, add_to_response, finalize_response,
  interrupt, check, ◌>>=◌, sw_interrupted_execution, >>=-eq-done, check-eq-done,
}
use app_bitcoin_new.Client.Received.{Fits, interrupt-Ready, bytes_eq_sound}
use app_bitcoin_new.Client.LeafHash.{memcmp_eq, bytes_eq, call_get_merkle_leaf_hash}
use app_bitcoin_new.Client.LeafHash.Sound.{Collision, root_hash, root_hash-length, OfHashes}
use app_bitcoin_new.Client.LeafHash.Accepted.{OnTheWay, call_get_merkle_leaf_hash-Reaches}
use app_bitcoin_new.Client.LeafHash.Messages.{AllFit}
use app_bitcoin_new.Client.Map.{
  fail_as, leaf_index_answer, return_int, call_get_merkle_leaf_index, ccmd_get_merkle_leaf_index,
}

pub fail_as-eq-done {ℓ} :
    {A : Type ℓ} (code : ℕ) (c : Call A) (a : A) (dc : Context)
    → fail_as code c ≡ done a dc
    → c ≡ done a dc
unfolding fail_as
fail_as-eq-done code diverges a dc e = cc
fail_as-eq-done code (failed code' dc') a dc e = cc
fail_as-eq-done code (done a' dc') a dc e = e

unless :
    {A : Type 0} (b : Bool) (code : ℕ) (d : Context) (go : Call A) (a : A) (dc : Context)
    → (if b then failed code d else go) ≡ done a dc
    → go ≡ done a dc
unless true code d go a dc e = cc
unless false code d go a dc e = e

return_int-eq-done :
    (value : ℕ) (dc : Context) (i : ℕ) (dc' : Context)
    → return_int value dc ≡ done i dc'
    → (value % 2 ^ 32 ≡ i) × (dc ≡ dc')
unfolding return_int
return_int-eq-done value dc i dc' e = elim (Bool-cases (ltb (value % 2 ^ 32) (2 ^ 31))) [
  | inl small ↦ let e' = rw small at e in (cc, cc)
  | inr big ↦ let e' = rw big at e in cc
]

-- Where the leaf's hash that is returned is the one that was asked for.
same_hash :
    (leaf_hash returned : List ℕ) (value : ℕ) (dc : Context) (i : ℕ) (dc' : Context)
    → (if memcmp_eq 32 leaf_hash returned then return_int value dc else failed 5 dc) ≡ done i dc'
    → (take 32 leaf_hash ≡ take 32 returned) × (value % 2 ^ 32 ≡ i) × (dc ≡ dc')
unfolding memcmp_eq
same_hash leaf_hash returned value dc i dc' e =
    elim (Bool-cases (bytes_eq (take 32 leaf_hash) (take 32 returned))) [
      | inl same ↦
          let e' = rw same at e in
          let (a, b) = return_int-eq-done value dc i dc' e' in (bytes_eq_sound _ _ same, a, b)
      | inr other ↦ let e' = rw other at e in cc
    ]

walk-OfHashes :
    (t : Tree (List ℕ)) (ds : List Direction) (s : Tree (List ℕ))
    → OfHashes t
    → walk t ds ≡ some s
    → OfHashes s
unfolding walk
walk-OfHashes t [] s o e = let same : t ≡ s = cc in subst OfHashes same o
walk-OfHashes (leaf a) (d ∷ ds) s o e = cc
walk-OfHashes (node l r) (invalid ∷ ds) s o e = cc
walk-OfHashes (node l r) (left ∷ ds) s (ol, or) e = walk-OfHashes l ds s ol e
walk-OfHashes (node l r) (right ∷ ds) s (ol, or) e = walk-OfHashes r ds s or e

-- The proof that a successful lookup rests on.
module _ (sha256 : List ℕ → List ℕ) (size : ℕ) (root leaf_hash : List ℕ) (index : ℕ)
    (dc' : Context) where
  abbrev pub Fetched : Type 0
  Fetched =
      (dc1 : Context) × (returned : List ℕ) × AllFit dc1
      × (call_get_merkle_leaf_hash sha256 (size % 2 ^ 32) index root dc1 ≡ done returned dc')
      × (take 32 leaf_hash ≡ take 32 returned)

  fetched :
      (value : ℕ) (dc1 : Context)
      → AllFit dc1
      → (fail_as 4 (call_get_merkle_leaf_hash sha256 (size % 2 ^ 32) (value % 2 ^ 32) root dc1)
          >>= λ returned d.
              if memcmp_eq 32 leaf_hash returned then return_int value d else failed 5 d)
        ≡ done index dc'
      → Fetched
  fetched value dc1 fits e =
      let (returned, dc2, call, e') = >>=-eq-done _ _ e in
      let call' = fail_as-eq-done 4 _ returned dc2 call in
      let (same, is_index, is_dc) = same_hash leaf_hash returned value dc2 index dc' e' in
      (
        dc1,
        returned,
        fits,
        subst
            (λ (d : Context).
              call_get_merkle_leaf_hash sha256 (size % 2 ^ 32) index root dc1 ≡ done returned d)
            is_dc
            (subst
              (λ (k : ℕ).
                call_get_merkle_leaf_hash sha256 (size % 2 ^ 32) k root dc1 ≡ done returned dc2)
              is_index call'),
        same,
      )

  pub leaf_index-eq-done :
      (dc : Context)
      → AllFit dc
      → call_get_merkle_leaf_index sha256 size root leaf_hash dc ≡ done index dc'
      → Fetched
  unfolding call_get_merkle_leaf_index set_response add_to_response finalize_response
  leaf_index-eq-done dc fits e =
      let compare : ℕ → List ℕ → Context → Call ℕ = λ value returned d.
        if memcmp_eq 32 leaf_hash returned then return_int value d else failed 5 d in
      let fetch : ℕ → Context → Call ℕ = λ value d.
        fail_as 4 (call_get_merkle_leaf_hash sha256 (size % 2 ^ 32) (value % 2 ^ 32) root d)
        >>= compare value in
      let found : ℕ × ℕ → Context → Call ℕ = λ got d.
        if not (got.0 == 0) && not (got.0 == 1)
        then failed 2 d
        else (if got.0 == 0 then failed 3 d else fetch got.1 d) in
      let checked : Unit {0} → Context → Call ℕ =
        λ _ d. check 1 (leaf_index_answer d.read_buffer) d >>= found in
      let request =
        set_response (ccmd_get_merkle_leaf_index ∷ (take 32 root ++ take 32 leaf_hash))
          sw_interrupted_execution dc in
      let (u, dc0, a, e0) = >>=-eq-done (interrupt 3 request) checked e in
      let (got, dc1, c, e1) =
        >>=-eq-done (check 1 (leaf_index_answer dc0.read_buffer) dc0) found e0 in
      let (b, _, is) = check-eq-done 1 (leaf_index_answer dc0.read_buffer) dc0 c in
      let e2 = unless _ 3 dc1 (fetch got.1 dc1) index dc' (unless _ 2 dc1 _ index dc' e1) in
      let fits1 : AllFit dc1 = subst AllFit (sym is) (interrupt-Ready 3 request u dc0 fits a).1 in
      fetched got.1 dc1 fits1 e2

module _ (sha256 : List ℕ → List ℕ) (t : Tree (List ℕ)) where
  OnTheWay-length :
      (index : ℕ) (h : List ℕ)
      → ((x : List ℕ) → length (sha256 x) ≡ 32)
      → OfHashes t
      → OnTheWay sha256 t index h
      → length h ≡ 32
  OnTheWay-length index h digest o (ds, rest, w, (s, found, is)) =
      ap length (sym is) ∙ root_hash-length sha256 digest s (walk-OfHashes t ds s o found)

  -- Where the digest gives 32 bytes, the root is that of a Merkle tree of at most 2 ^ 31 hashes, the hash has 32
  -- bytes, and no message is longer than the APDU buffer or than 32 bits tell: if
  -- `call_get_merkle_leaf_index` returns an index, then the hash is that of a subtree on the way that `way`
  -- gives for the index, or two different inputs of the digest with the same digest are found.
  pub call_get_merkle_leaf_index-OnTheWay :
      (leaf_hash : List ℕ) (dc : Context) (index : ℕ) (dc' : Context)
      → ((x : List ℕ) → length (sha256 x) ≡ 32)
      → IsMerkle t
      → size t ≤ 2 ^ 31
      → OfHashes t
      → length leaf_hash ≡ 32
      → All Fits dc.incoming
      → call_get_merkle_leaf_index sha256 (size t) (root_hash sha256 t) leaf_hash dc
        ≡ done index dc'
      → OnTheWay sha256 t index leaf_hash ⊎ Collision sha256
  call_get_merkle_leaf_index-OnTheWay leaf_hash dc index dc' digest m small o len fits e =
      let (dc1, returned, fits1, call, same) =
        leaf_index-eq-done sha256 (size t) (root_hash sha256 t) leaf_hash index dc' dc fits e in
      let whole : size t % 2 ^ 32 ≡ size t = omega arith in
      elim (call_get_merkle_leaf_hash-Reaches sha256 t index dc1 returned dc' digest m small o fits1
        (rw whole at call)) [
          | inr collision ↦ inr collision
          | inl way_to ↦
              let len' = OnTheWay-length index returned digest o way_to in
              let equal : returned ≡ leaf_hash =
                sym (take-all 32 returned (omega arith))
                ∙ (sym same ∙ take-all 32 leaf_hash (omega arith)) in
              inl (subst (OnTheWay sha256 t index) equal way_to)
        ]
