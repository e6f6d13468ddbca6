-- ===== src/Client/LeafHash/Accepted.antt =====
-- What `call_get_merkle_leaf_hash` accepts: the hash of a subtree on the leaf's way, where the digest has
-- no collision.
use app_bitcoin_new.Prelude.{
  take-all, ℕ, suc, ◌+◌, ◌-◌, ◌^◌, ◌≤◌, ◌≡◌, sym, ap, ◌∙◌, arith, List, ◌++◌, Option, none, some,
  length, length-take, length-drop, take, drop, ltb, if◌then◌else◌, ◌⊎◌, inl, inr, Bool-cases, All,
}
use mathlib.Core.Path.{subst}
use app_bitcoin_new.Merkle.{Direction}
use app_bitcoin_new.Merkle.Tree.{Tree, size, IsMerkle, way}
use app_bitcoin_new.Buffer.{Buffer, buffer_read_bytes, buffer_get_cur, sub_size}
use app_bitcoin_new.Client.{
  Context, Call, failed, done, interrupt, check, ◌>>=◌, >>=-eq-done, check-eq-done, add_to_response,
  finalize_response,
}
use app_bitcoin_new.Client.Received.{Fits, interrupt-Ready, bytes_eq_sound}
use app_bitcoin_new.Buffer.Invariant.{IsValid}
use app_bitcoin_new.Client.LeafHash.{
  bytes_eq, memcmp_eq, send_proof_request, proof_start, proof_rounds, call_get_merkle_leaf_hash,
}
use app_bitcoin_new.Client.LeafHash.Proof.{proof_rounds-Climbs, climb}
use app_bitcoin_new.Client.LeafHash.Sound.{
  Collision, Reaches, root_hash, OfHashes, climb_sound, Follows-way, dirs, climb-length,
  root_hash-length,
}

IsStart : Option ((List ℕ × ℕ × ℕ) × Buffer) → Type 0
IsStart none = Unit {0}
IsStart (some (start, b)) = (length start.0 ≡ 32) × (start.2 ≤ start.1)

-- What the first answer starts with, where it passes the checks.
proof_start-IsStart : (b : Buffer) → IsValid b → IsStart (proof_start b)
unfolding proof_start buffer_read_bytes IsStart
proof_start-IsStart b v = elim (Bool-cases (ltb (sub_size b.size b.offset) 32)) [
  | inl short ↦ rw (short, IsStart) tt
  | inr enough ↦
      let wide : 32 ≤ sub_size b.size b.offset = ground arith in
      let len : length (take 32 (buffer_get_cur b)) ≡ 32 = omega (
        arith,
        v.within,
        v.region,
        v.small,
        length-take {0} 32 (buffer_get_cur b),
        length-drop {0} b.offset b.ptr,
        wide,
      ) in
      rw (enough, IsStart) (ground (arith, len))
]

proof_start-eq-some :
    (b : Buffer) (start : List ℕ × ℕ × ℕ) (b' : Buffer)
    → IsValid b
    → proof_start b ≡ some (start, b')
    → (length start.0 ≡ 32) × (start.2 ≤ start.1)
unfolding IsStart
proof_start-eq-some b start b' f e = subst IsStart e (proof_start-IsStart b f)

-- The proof's part of the call, with the comparison behind it.
module _ (sha256 : List ℕ → List ℕ) (t : Tree (List ℕ)) (index : ℕ) where
  -- `out` is the hash of a subtree that a part of the way to the leaf leads to.
  abbrev pub OnTheWay : List ℕ → Type 0
  OnTheWay out =
      (ds : List Direction) × (rest : List Direction) × (way t index ≡ ds ++ rest)
      × Reaches sha256 t ds out

  finish : List ℕ → List ℕ → Context → Call (List ℕ)
  finish out top dc = if memcmp_eq 32 (root_hash sha256 t) top then done out dc else failed 1 dc

  finish-eq-done :
      (h out top : List ℕ) (dc dc' : Context)
      → finish h top dc ≡ done out dc'
      → (h ≡ out) × (take 32 (root_hash sha256 t) ≡ take 32 top)
  unfolding finish memcmp_eq
  finish-eq-done h out top dc dc' e =
      elim (Bool-cases (bytes_eq (take 32 (root_hash sha256 t)) (take 32 top))) [
        | inl same ↦ let e' = rw same at e in (cc, bytes_eq_sound _ _ same)
        | inr other ↦ let e' = rw other at e in cc
      ]

  verified :
      (fuel n p : ℕ) (h out : List ℕ) (dc dc' : Context)
      → ((x : List ℕ) → length (sha256 x) ≡ 32)
      → IsMerkle t
      → size t ≤ 2 ^ 31
      → OfHashes t
      → length h ≡ 32
      → n ≤ p
      → (proof_rounds sha256 (size t) index fuel n p 0 h dc >>= finish h) ≡ done out dc'
      → OnTheWay out ⊎ Collision sha256
  verified fuel n p h out dc dc' digest m small o len le e =
      let (top, dc2, rounds, e2) =
        >>=-eq-done (proof_rounds sha256 (size t) index fuel n p 0 h dc) (finish h) e in
      let (same, tops) = finish-eq-done h out top dc2 dc' e2 in
      let (steps, _, follows, climbs) =
        proof_rounds-Climbs sha256 (size t) index fuel n p 0 h dc top dc2 (omega arith) rounds in
      let start : p - p ≡ 0 = omega arith in
      let along = Follows-way t index 0 steps m small (rw start at follows) in
      let len_top = climb-length sha256 digest steps h len in
      let reached : climb sha256 steps h ≡ root_hash sha256 t =
        sym (take-all 32 (climb sha256 steps h) (omega (arith, len_top)))
        ∙ (ap (take 32) (sym climbs)
            ∙ (sym tops
                ∙ take-all 32 (root_hash sha256 t)
                    (omega (arith, root_hash-length sha256 digest t o)))) in
      elim (climb_sound sha256 digest t index steps _ h o len along reached) [
        | inr collision ↦ inr collision
        | inl found ↦ inl (
          dirs steps,
          drop (0 + length steps) (way t index),
          along,
          subst (Reaches sha256 t (dirs steps)) same found,
        )
      ]

-- Where the digest gives 32 bytes, the root is that of a Merkle tree of at most 2 ^ 31 hashes, and no
-- message is longer than the APDU buffer or than 32 bits tell: if `call_get_merkle_leaf_hash` succeeds for
-- an index, then `out` is the hash of a subtree on the way that `way` gives for that index, or two
-- different inputs of the digest with the same digest are found.
pub call_get_merkle_leaf_hash-Reaches :
    (sha256 : List ℕ → List ℕ) (t : Tree (List ℕ)) (index : ℕ) (dc : Context) (out : List ℕ)
    (dc' : Context)
    → ((x : List ℕ) → length (sha256 x) ≡ 32)
    → IsMerkle t
    → size t ≤ 2 ^ 31
    → OfHashes t
    → All Fits dc.incoming
    → call_get_merkle_leaf_hash sha256 (size t) index (root_hash sha256 t) dc ≡ done out dc'
    → OnTheWay sha256 t index out ⊎ Collision sha256
unfolding call_get_merkle_leaf_hash finish send_proof_request add_to_response finalize_response
call_get_merkle_leaf_hash-Reaches sha256 t index dc out dc' digest m small o fits e =
    let root = root_hash sha256 t in
    let run : (List ℕ × ℕ × ℕ) → Context → Call (List ℕ) = λ start dc1.
      proof_rounds sha256 (size t) index (suc (length dc1.incoming)) start.2 start.1 0 start.0 dc1
      >>= finish sha256 t index start.0 in
    let checked : Unit {0} → Context → Call (List ℕ) =
      λ _ dc0. check 1 (proof_start dc0.read_buffer) dc0 >>= run in
    let (u, dc0, asked, e0) =
      >>=-eq-done (interrupt 1 (send_proof_request root (size t) index dc)) checked e in
    let (start, dc1, got, e1) = >>=-eq-done (check 1 (proof_start dc0.read_buffer) dc0) run e0 in
    let (b, read, _) = check-eq-done 1 (proof_start dc0.read_buffer) dc0 got in
    let (len, le) =
      proof_start-eq-some dc0.read_buffer start b (interrupt-Ready 1 _ u dc0 fits asked).0 read in
    verified sha256 t index (suc (length dc1.incoming)) start.2 start.1 start.0 out dc1 dc' digest m
      small o len le e1
