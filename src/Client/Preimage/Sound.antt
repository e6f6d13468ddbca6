-- ===== src/Client/Preimage/Sound.antt =====
-- What `call_get_preimage` leaves in the caller's array.
use app_bitcoin_new.Prelude.{
  ℕ, zero, suc, ◌+◌, ◌-◌, ◌*◌, ◌%◌, ◌^◌, ◌≤◌, ◌<◌, ◌≡◌, refl, sym, ap, ◌∙◌, arith, List, [], ◌∷◌,
  ◌++◌, length, length-append, take, All, Option, none, some, Bool, true, false, not, ◌||◌, ltb,
  ◌==◌, Bool-cases, inl, inr,
}
use app_bitcoin_new.Buffer.{
  Buffer, buffer_create, buffer_can_read, buffer_get_cur, buffer_read_u8, buffer_read_varint,
  buffer_write_bytes,
}
use app_bitcoin_new.Buffer.Invariant.{IsValid, run_op, run_ops, run_ops-Kept, read_u8, read_varint}
use app_bitcoin_new.Client.{
  Context, Call, failed, done, interrupt, check, set_response, add_to_response, finalize_response,
  ◌>>=◌, >>=-eq-done, check-eq-done, sw_interrupted_execution,
}
use app_bitcoin_new.Client.Received.{
  Fits, Ready, interrupt-Ready, bytes_eq_sound, length-take-get_cur,
}
use app_bitcoin_new.Client.LeafHash.{memcmp_eq, bytes_eq, ccmd_get_more_elements}
use app_bitcoin_new.Client.LeafHash.Proof.{split_done}
use mathlib.Core.Path.{subst}
use app_bitcoin_new.Client.Preimage.Written.{Holds, write_bytes-Holds}
use app_bitcoin_new.Client.Preimage.{
  send_preimage_request, preimage_start, more_bytes, preimage_rounds, compare_hash,
  call_get_preimage,
}

all_ok : (a b c : Bool) → (not a || not b || not c) ≡ false → c ≡ true
all_ok a b true h = refl
all_ok true true false h = cc
all_ok true false false h = cc
all_ok false b false h = cc

-- An answer whose buffer is valid and holds as many bytes as `count` says.
pub Chunk : (ℕ × ℕ → ℕ) → Option ((ℕ × ℕ) × Buffer) → Type 0
Chunk count none = Unit {0}
Chunk count (some (got, b)) = IsValid b × (length (take (count got) (buffer_get_cur b)) ≡ count got)

pub more_bytes-Chunk : (b : Buffer) → IsValid b → Chunk (λ got. got.0 * got.1) (more_bytes b)
unfolding Chunk more_bytes run_ops run_op
more_bytes-Chunk b v =
    let b0 = (buffer_read_u8 b).2 in
    let b1 = (buffer_read_u8 b0).2 in
    let n = (buffer_read_u8 b).1 * (buffer_read_u8 b0).1 in
    let v' : IsValid b1 = (run_ops-Kept (read_u8 ∷ read_u8 ∷ []) b v).0 in
    elim (Bool-cases
      (not (buffer_read_u8 b).0 || not (buffer_read_u8 b0).0 || not (buffer_can_read b1 n))) [
        | inl bad ↦ rw (bad, Chunk) tt
        | inr ok ↦ rw (ok, Chunk) (v', length-take-get_cur b1 n v' (all_ok _ _ _ ok))
      ]

pub preimage_start-Chunk : (b : Buffer) → IsValid b → Chunk (λ start. start.1) (preimage_start b)
unfolding Chunk preimage_start run_ops run_op
preimage_start-Chunk b v =
    let b0 = (buffer_read_varint b).2 in
    let b1 = (buffer_read_u8 b0).2 in
    let n = (buffer_read_u8 b0).1 in
    let v' : IsValid b1 = (run_ops-Kept (read_varint ∷ read_u8 ∷ []) b v).0 in
    elim (Bool-cases
      (not (buffer_read_varint b).0 || not (buffer_read_u8 b0).0 || not (buffer_can_read b1 n))) [
        | inl bad ↦ rw (bad, Chunk) tt
        | inr ok ↦ rw (ok, Chunk) (v', length-take-get_cur b1 n v' (all_ok _ _ _ ok))
      ]

-- A check that passes leaves such a buffer.
pub check-Ready :
    (count : ℕ × ℕ → ℕ) (code : ℕ) (o : Option ((ℕ × ℕ) × Buffer)) (dc : Context) (got : ℕ × ℕ)
    (dc' : Context)
    → Chunk count o
    → Ready dc
    → check code o dc ≡ done got dc'
    → Ready dc' × (length (take (count got) (buffer_get_cur dc'.read_buffer)) ≡ count got)
unfolding Chunk
check-Ready count code o dc got dc' chunk (v, fits) e =
    let (b, is, same) = check-eq-done code o dc e in
    let (v', len) : Chunk count (some (got, b)) = subst (Chunk count) is chunk in
    subst
      (λ (d : Context).
        Ready d × (length (take (count got) (buffer_get_cur d.read_buffer)) ≡ count got))
      (sym same) ((v', fits), len)

-- Rounds that succeed hash and write all that remained.
preimage_rounds-Holds :
    (code out_len fuel rem : ℕ) (hashed : List ℕ) (b : Buffer) (dc : Context)
    (got : List ℕ × Buffer) (dc' : Context)
    → Ready dc
    → Holds out_len hashed b
    → preimage_rounds code (λ d. buffer_get_cur d.read_buffer) fuel rem hashed b dc ≡ done got dc'
    → Holds out_len got.0 got.1 × (length got.0 ≡ length hashed + rem)
unfolding preimage_rounds set_response add_to_response finalize_response
preimage_rounds-Holds code out_len zero rem hashed b dc got dc' (v, fits) holds e = cc
preimage_rounds-Holds code out_len (suc fuel) rem hashed b dc got dc' (v, fits) holds e =
    let chunk : Context → List ℕ = λ d. buffer_get_cur d.read_buffer in
    let again : ℕ × ℕ → Context → Call (List ℕ × Buffer) = λ n d.
      preimage_rounds code chunk fuel (rem - n.0) (hashed ++ take n.0 (chunk d))
        (buffer_write_bytes b (chunk d) n.0).1 d in
    let bounded : ℕ × ℕ → Context → Call (List ℕ × Buffer) =
      λ n d. elim (ltb rem n.0) [ true ↦ failed (code + 3) d | false ↦ again n d ] in
    let single : ℕ × ℕ → Context → Call (List ℕ × Buffer) =
      λ n d. elim (n.1 == 1) [ true ↦ bounded n d | false ↦ failed (code + 2) d ] in
    let checked : Unit {0} → Context → Call (List ℕ × Buffer) =
      λ _ d. check (code + 1) (more_bytes d.read_buffer) d >>= single in
    let asked =
      interrupt code (set_response (ccmd_get_more_elements ∷ []) sw_interrupted_execution dc) in
    elim (split_done (rem == 0) (done (hashed, b) dc) (asked >>= checked) e) [
      | inl (end, stop) ↦
          let same : (hashed, b) ≡ got = cc in
          subst
            (λ (g : List ℕ × Buffer). Holds out_len g.0 g.1 × (length g.0 ≡ length hashed + rem))
            same (holds, ground arith)
      | inr (_, run) ↦
          let (u, dc0, a, e0) = >>=-eq-done asked checked run in
          let (n, dc1, c, e1) =
            >>=-eq-done (check (code + 1) (more_bytes dc0.read_buffer) dc0) single e0 in
          let ready0 = interrupt-Ready code _ u dc0 fits a in
          let (ready, len) =
            check-Ready (λ g. g.0 * g.1) (code + 1) (more_bytes dc0.read_buffer) dc0 n dc1
              (more_bytes-Chunk dc0.read_buffer ready0.0) ready0 c in
          elim (split_done (n.1 == 1) (bounded n dc1) (failed (code + 2) dc1) e1) [
            | inr (_, bad) ↦ cc
            | inl (one, e2) ↦
                elim (split_done (ltb rem n.0) (failed (code + 3) dc1) (again n dc1) e2) [
                  | inl (_, bad) ↦ cc
                  | inr (small, e3) ↦
                      let n1 : n.1 ≡ 1 = ground arith in
                      let m : n.0 * n.1 ≡ n.0 = rw n1 (omega arith) in
                      let len' : length (take n.0 (chunk dc1)) ≡ n.0 = rw m at len in
                      let (holds', total) =
                        preimage_rounds-Holds code out_len fuel (rem - n.0)
                          (hashed ++ take n.0 (chunk dc1)) (buffer_write_bytes b (chunk dc1) n.0).1
                          dc1 got dc' ready
                          (write_bytes-Holds out_len hashed (chunk dc1) n.0 b len' holds) e3 in
                      let le : n.0 ≤ rem = ground arith in
                      (
                        holds',
                        omega (
                          arith,
                          total,
                          len',
                          length-append {0} hashed (take n.0 (chunk dc1)),
                          le,
                        ),
                      )
                ]
          ]
    ]

pub ltb-false : (a b : ℕ) → ltb a b ≡ false → b ≤ a
ltb-false a b h = ground arith

module _ (sha256 : List ℕ → List ℕ) (out_address : ℕ) (out : List ℕ) (out_len : ℕ) where
  new-Holds :
      out_len ≤ length out
      → out_len < 2 ^ 32
      → Holds out_len [] (buffer_create out_address out out_len)
  unfolding Holds buffer_create
  new-Holds room small =
      (record { within = omega arith; region = room; small = small }, refl, λ fits. (refl, refl))

  pub compare_hash-eq-done :
      (code : ℕ) (hash : List ℕ) (result : ℕ) (got : List ℕ × Buffer) (dc : Context) (n : ℕ)
      (out' : List ℕ) (dc' : Context)
      → compare_hash sha256 out_address out out_len code hash result got dc ≡ done (n, out') dc'
      → (take 32 (sha256 got.0) ≡ take 32 hash) × (result ≡ n) × (got.1.ptr ≡ out')
  unfolding compare_hash memcmp_eq
  compare_hash-eq-done code hash result got dc n out' dc' e =
      elim (Bool-cases (bytes_eq (take 32 (sha256 got.0)) (take 32 hash))) [
        | inl same ↦ let e' = rw same at e in (bytes_eq_sound _ _ same, cc, cc)
        | inr other ↦ let e' = rw other at e in cc
      ]

  first_write : Context → ℕ → Buffer
  first_write d k =
      (buffer_write_bytes (buffer_create out_address out out_len) (buffer_get_cur d.read_buffer)
        k).1

  -- From the checked first answer on.
  verified :
      (hash : List ℕ) (fuel p k : ℕ) (dc : Context) (n : ℕ) (out' : List ℕ) (dc' : Context)
      → out_len ≤ length out
      → out_len < 2 ^ 32
      → n ≤ out_len
      → Ready dc
      → length (take k (buffer_get_cur dc.read_buffer)) ≡ k
      → k ≤ p
      → (preimage_rounds 5
            (λ d'. buffer_get_cur d'.read_buffer)
            fuel
            (p - k)
            (take k (buffer_get_cur dc.read_buffer))
            (first_write dc k)
            dc
          >>= compare_hash sha256 out_address out out_len 9 hash p)
        ≡ done (n, out') dc'
      → (take 32 (sha256 (take n out')) ≡ take 32 hash) × (length (take n out') ≡ n)
  unfolding first_write Holds
  verified hash fuel p k dc n out' dc' room small le ready len part e =
      let (got, dc2, r, e') =
        >>=-eq-done _ (compare_hash sha256 out_address out out_len 9 hash p) e in
      let (digest, is_n, is_out) = compare_hash-eq-done 9 hash p got dc2 n out' dc' e' in
      let (holds, total) =
        preimage_rounds-Holds 5 out_len fuel (p - k) _ (first_write dc k) dc got dc2 ready
          (write_bytes-Holds out_len [] (buffer_get_cur dc.read_buffer) k
            (buffer_create out_address out out_len) len (new-Holds room small))
          r in
      let all : length got.0 ≡ n = omega (arith, total, len, is_n, part) in
      let prefix = (holds.2 (omega (arith, all, le))).1 in
      let same : take n out' ≡ got.0 =
        subst (λ (m : ℕ). take m out' ≡ got.0) all
          (ap (take (length got.0)) (sym is_out) ∙ prefix) in
      (ap (λ (xs : List ℕ). take 32 (sha256 xs)) same ∙ digest, ap length same ∙ all)

  -- Where the array has `out_len` bytes and no message is longer than the APDU buffer or than 32 bits tell: if
  -- `call_get_preimage` returns a length that is at most `out_len`, then the array starts with that many
  -- bytes whose digest is the hash that was asked for.
  pub call_get_preimage-digest :
      (hash : List ℕ) (dc : Context) (n : ℕ) (out' : List ℕ) (dc' : Context)
      → out_len ≤ length out
      → out_len < 2 ^ 32
      → All Fits dc.incoming
      → n ≤ out_len
      → call_get_preimage sha256 out_address out out_len hash dc ≡ done (n, out') dc'
      → (take 32 (sha256 (take n out')) ≡ take 32 hash) × (length (take n out') ≡ n)
  unfolding call_get_preimage send_preimage_request add_to_response finalize_response first_write
  call_get_preimage-digest hash dc n out' dc' room small fits le e =
      let compare : ℕ → List ℕ × Buffer → Context → Call (ℕ × List ℕ) =
        compare_hash sha256 out_address out out_len 9 hash in
      let rounds : ℕ × ℕ → Context → Call (List ℕ × Buffer) = λ start d.
        preimage_rounds 5 (λ d'. buffer_get_cur d'.read_buffer) (suc (length d.incoming))
          (start.0 % 2 ^ 32 - start.1) (take start.1 (buffer_get_cur d.read_buffer))
          (first_write d start.1) d in
      let bounded : ℕ × ℕ → Context → Call (ℕ × List ℕ) = λ start d.
        elim (ltb (start.0 % 2 ^ 32) start.1) [
          | true ↦ failed 4 d
          | false ↦ rounds start d >>= compare (start.0 % 2 ^ 32)
        ] in
      let some_bytes : ℕ × ℕ → Context → Call (ℕ × List ℕ) = λ start d.
        elim (ltb (start.0 % 2 ^ 32) 1) [ true ↦ failed 3 d | false ↦ bounded start d ] in
      let checked : Unit {0} → Context → Call (ℕ × List ℕ) =
        λ _ d. check 2 (preimage_start d.read_buffer) d >>= some_bytes in
      let (u, dc0, a, e0) = >>=-eq-done (interrupt 1 (send_preimage_request hash dc)) checked e in
      let (start, dc1, c, e1) =
        >>=-eq-done (check 2 (preimage_start dc0.read_buffer) dc0) some_bytes e0 in
      let ready0 = interrupt-Ready 1 _ u dc0 fits a in
      let (ready, len) =
        check-Ready (λ s. s.1) 2 (preimage_start dc0.read_buffer) dc0 start dc1
          (preimage_start-Chunk dc0.read_buffer ready0.0) ready0 c in
      elim (split_done (ltb (start.0 % 2 ^ 32) 1) (failed 3 dc1) (bounded start dc1) e1) [
        | inl (_, bad) ↦ cc
        | inr (_, e2) ↦
            elim (split_done (ltb (start.0 % 2 ^ 32) start.1) (failed 4 dc1)
              (rounds start dc1 >>= compare (start.0 % 2 ^ 32)) e2) [
                | inl (_, bad) ↦ cc
                | inr (within, e3) ↦
                    verified hash (suc (length dc1.incoming)) (start.0 % 2 ^ 32) start.1 dc1 n out'
                      dc' room small le ready len (ltb-false _ _ within) e3
              ]
      ]
