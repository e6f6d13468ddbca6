-- ===== src/Client/Stream/Sound.antt =====
-- What the callbacks of `call_stream_preimage` are given.
use app_bitcoin_new.Prelude.{
  ℕ, zero, suc, ◌-◌, ◌%◌, ◌^◌, ◌≤◌, ◌<◌, ◌≡◌, refl, sym, ap, ◌∙◌, arith, List, [], ◌∷◌, ◌++◌,
  length, length-append, take, drop, All, Option, some, true, false, ltb, Bool-cases, ◌⊎◌, inl, inr,
}
use app_bitcoin_new.Buffer.{Buffer, buffer_get_cur, sub_size}
use app_bitcoin_new.Buffer.Stream.{remaining, all_remaining}
use app_bitcoin_new.Client.{
  Context, Call, failed, done, interrupt, check, add_to_response, finalize_response, ◌>>=◌,
  >>=-eq-done,
}
use app_bitcoin_new.Client.Received.{Fits, Ready, interrupt-Ready, bytes_eq_sound}
use app_bitcoin_new.Client.LeafHash.{memcmp_eq, bytes_eq}
use app_bitcoin_new.Client.LeafHash.Proof.{split_done}
use app_bitcoin_new.Client.Preimage.{send_preimage_request, preimage_start}
use app_bitcoin_new.Client.Preimage.Sound.{ltb-false, check-Ready, preimage_start-Chunk}
use app_bitcoin_new.Client.Stream.{
  after_callback, part_at, calls, stream_rounds, compare_stream, call_stream_preimage,
}
use app_bitcoin_new.Client.Stream.Rounds.{
  IsWhole, after_callback-eq-done, part_at-IsWhole, Parts, calls-cons, stream_rounds-Parts,
}

first_byte :
    (k : ℕ) (cur : List ℕ)
    → length (take (suc k) cur) ≡ suc k
    → (x : ℕ) × (take (suc k) cur ≡ x ∷ take k (drop 1 cur)) × (length (take k (drop 1 cur)) ≡ k)
first_byte k [] e = absurd (omega arith)
first_byte k (x ∷ cur) e = (x, refl, omega arith)

-- The first message says that it holds no data of the preimage.
abbrev pub EmptyStart : List ℕ → Context → Type 0
EmptyStart hash dc =
    (len : ℕ) × (dc0 : Context) × (dc1 : Context) × (interrupt 1 (send_preimage_request hash dc)
      ≡ done tt dc0)
    × (check 2 (preimage_start dc0.read_buffer) dc0 ≡ done (len, 0) dc1)

module _ {State : Type 0} (callback : Buffer → State → Option State)
    (sha256 : List ℕ → List ℕ) where
  -- Parts that make up, behind a first byte, a preimage of the hash, and `n` bytes together.
  abbrev pub Streamed : List ℕ → State → ℕ → State → Type 0
  Streamed hash state n state' =
      (parts : List Buffer) × (first : ℕ) × All IsWhole parts
      × (calls callback parts state ≡ some state')
      × (length (all_remaining parts) ≡ n)
      × (take 32 (sha256 (first ∷ all_remaining parts)) ≡ take 32 hash)

  compare-eq-done :
      (hash : List ℕ) (p : ℕ) (got : List ℕ × State) (dc : Context) (n : ℕ) (state' : State)
      (dc' : Context)
      → compare_stream callback sha256 hash p got dc ≡ done (n, state') dc'
      → (take 32 (sha256 got.0) ≡ take 32 hash) × (p ≡ n) × (got.1 ≡ state')
  unfolding compare_stream memcmp_eq
  compare-eq-done hash p got dc n state' dc' e =
      elim (Bool-cases (bytes_eq (take 32 (sha256 got.0)) (take 32 hash))) [
        | inl same ↦ let e' = rw same at e in (bytes_eq_sound _ _ same, cc, cc)
        | inr other ↦ let e' = rw other at e in cc
      ]

  -- From the first callback on.
  from_first :
      (hash : List ℕ) (p k fuel : ℕ) (start : ℕ → State) (state1 : State) (dc : Context) (n : ℕ)
      (state' : State) (dc' : Context)
      → p < 2 ^ 32
      → suc k ≤ p
      → Ready dc
      → length (take (suc k) (buffer_get_cur dc.read_buffer)) ≡ suc k
      → callback (part_at dc 1 (sub_size (suc k) 1)) (start (p - 1)) ≡ some state1
      → (stream_rounds callback fuel
            (p - suc k)
            (take (suc k) (buffer_get_cur dc.read_buffer))
            state1
            dc
          >>= compare_stream callback sha256 hash (p - 1))
        ≡ done (n, state') dc'
      → Streamed hash (start n) n state'
  unfolding Parts
  from_first hash p k fuel start state1 dc n state' dc' small le ready len called e =
      let (got, dc2, r, e1) = >>=-eq-done _ (compare_stream callback sha256 hash (p - 1)) e in
      let (digest, is_n, is_state) = compare-eq-done hash (p - 1) got dc2 n state' dc' e1 in
      let (x, bytes, len') = first_byte k (buffer_get_cur dc.read_buffer) len in
      let size : sub_size (suc k) 1 ≡ k = omega arith in
      let (parts, ws, run, hashed, total) =
        stream_rounds-Parts callback fuel (p - suc k) _ state1 dc got.0 got.1 dc2 (omega arith)
          ready r in
      let (w, same) = part_at-IsWhole dc 1 k (omega arith) len' in
      let part = part_at dc 1 k in
      let l = length-append {0} (remaining part) (all_remaining parts) in
      let all : got.0 ≡ x ∷ (remaining part ++ all_remaining parts) =
        hashed
        ∙ (ap (λ (c : List ℕ). c ++ all_remaining parts) bytes
            ∙ ap (λ (c : List ℕ). x ∷ (c ++ all_remaining parts)) (sym same)) in
      (
        part ∷ parts,
        x,
        (w, ws),
        calls-cons callback part parts (start n) state1 state' (rw (size, is_n) at called)
            (run ∙ ap some is_state),
        omega (arith, l, total, is_n, len', ap (λ (c : List ℕ). length c) same),
        ap (λ (c : List ℕ). take 32 (sha256 c)) (sym all) ∙ digest,
      )

  -- From the checked first answer on.
  from_answer :
      (len_callback : ℕ → State → State) (hash : List ℕ) (state : State) (dc dc0 dc1 : Context)
      (len k fuel : ℕ) (n : ℕ) (state' : State) (dc' : Context)
      → interrupt 1 (send_preimage_request hash dc) ≡ done tt dc0
      → check 2 (preimage_start dc0.read_buffer) dc0 ≡ done (len, k) dc1
      → Ready dc1
      → length (take k (buffer_get_cur dc1.read_buffer)) ≡ k
      → k ≤ len % 2 ^ 32
      → after_callback
            (callback (part_at dc1 1 (sub_size k 1)) (len_callback (len % 2 ^ 32 - 1) state))
            (λ state1.
              stream_rounds callback fuel
                (len % 2 ^ 32 - k)
                (take k (buffer_get_cur dc1.read_buffer))
                state1
                dc1)
          >>= compare_stream callback sha256 hash (len % 2 ^ 32 - 1)
        ≡ done (n, state') dc'
      → EmptyStart hash dc ⊎ Streamed hash (len_callback n state) n state'
  from_answer len_callback hash state dc dc0 dc1 len zero fuel n state' dc' a c ready all le e =
      inl (len, dc0, dc1, a, c)
  from_answer len_callback hash state dc dc0 dc1 len (suc k) fuel n state' dc' a c ready all le e =
      let start : ℕ → State = λ m. len_callback m state in
      let rounds : State → Call (List ℕ × State) = λ state1.
        stream_rounds callback fuel (len % 2 ^ 32 - suc k)
          (take (suc k) (buffer_get_cur dc1.read_buffer)) state1 dc1 in
      let first = callback (part_at dc1 1 (sub_size (suc k) 1)) (start (len % 2 ^ 32 - 1)) in
      let compare = compare_stream callback sha256 hash (len % 2 ^ 32 - 1) in
      let (got, dc2, r, e1) = >>=-eq-done (after_callback first rounds) compare e in
      let (state1, called, r1) = after_callback-eq-done first rounds r in
      inr (
        from_first hash (len % 2 ^ 32) k fuel start state1 dc1 n state' dc' (omega arith) le ready
          all called (rw r1 e1))

  -- Where no message is longer than the APDU buffer or than 32 bits tell: if `call_stream_preimage` succeeds
  -- with a length, then the first message has no data of the preimage, or the callback was called, in turn,
  -- with valid buffers whose bytes together, behind one byte, are a preimage of the hash, and have that
  -- length; the state is what these calls leave.
  pub call_stream_preimage-Streamed :
      (len_callback : ℕ → State → State) (hash : List ℕ) (state : State) (dc : Context) (n : ℕ)
      (state' : State) (dc' : Context)
      → All Fits dc.incoming
      → call_stream_preimage callback sha256 len_callback hash state dc ≡ done (n, state') dc'
      → EmptyStart hash dc ⊎ Streamed hash (len_callback n state) n state'
  unfolding call_stream_preimage send_preimage_request add_to_response finalize_response
  call_stream_preimage-Streamed len_callback hash state dc n state' dc' fits e =
      let compare : ℕ → List ℕ × State → Context → Call (ℕ × State) =
        compare_stream callback sha256 hash in
      let rounds : ℕ × ℕ → Context → State → Call (List ℕ × State) = λ start d state1.
        stream_rounds callback (suc (length d.incoming)) (start.0 % 2 ^ 32 - start.1)
          (take start.1 (buffer_get_cur d.read_buffer)) state1 d in
      let streamed : ℕ × ℕ → Context → Call (ℕ × State) = λ start d.
        after_callback
          (callback (part_at d 1 (sub_size start.1 1)) (len_callback (start.0 % 2 ^ 32 - 1) state))
          (rounds start d)
        >>= compare (start.0 % 2 ^ 32 - 1) in
      let bounded : ℕ × ℕ → Context → Call (ℕ × State) = λ start d.
        elim (ltb (start.0 % 2 ^ 32) start.1) [ true ↦ failed 4 d | false ↦ streamed start d ] in
      let some_bytes : ℕ × ℕ → Context → Call (ℕ × State) = λ start d.
        elim (ltb (start.0 % 2 ^ 32) 1) [ true ↦ failed 3 d | false ↦ bounded start d ] in
      let checked : Unit {0} → Context → Call (ℕ × State) =
        λ _ d. check 2 (preimage_start d.read_buffer) d >>= some_bytes in
      let (u, dc0, a, e0) = >>=-eq-done (interrupt 1 (send_preimage_request hash dc)) checked e in
      let (start, dc1, c, e1) =
        >>=-eq-done (check 2 (preimage_start dc0.read_buffer) dc0) some_bytes e0 in
      let ready0 = interrupt-Ready 1 _ u dc0 fits a in
      let (ready, len) =
        check-Ready (λ s. s.1) 2 (preimage_start dc0.read_buffer) dc0 start dc1
          (preimage_start-Chunk dc0.read_buffer ready0.0) ready0 c in
      elim (split_done (ltb (start.0 % 2 ^ 32) 1) (failed 3 dc1) (bounded start dc1) e1) [
        | inl (_, bad) ↦ cc
        | inr (_, e2) ↦
            elim (split_done (ltb (start.0 % 2 ^ 32) start.1) (failed 4 dc1) (streamed start dc1)
              e2) [
                | inl (_, bad) ↦ cc
                | inr (within, e3) ↦
                    from_answer len_callback hash state dc dc0 dc1 start.0 start.1
                      (suc (length dc1.incoming)) n state' dc' a c ready len (ltb-false _ _ within)
                      e3
              ]
      ]
