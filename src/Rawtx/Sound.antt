-- ===== src/Rawtx/Sound.antt =====
-- What a success of `call_psbt_parse_rawtx` says of the transaction.
use app_bitcoin_new.Prelude.{
  ℕ, ◌+◌, ◌^◌, ◌≤◌, ◌<◌, ◌≡◌, refl, ◌∙◌, arith, List, [], ◌∷◌, ◌++◌, append_assoc, Option, some,
  false, if◌then◌else◌, length, length-append, take, All, Bool-cases, ◌⊎◌, inl, inr,
}
use mathlib.Core.Path.{subst}
use native.Mathlib.Decide.{dec_le}
use app_bitcoin_new.Buffer.{Buffer}
use app_bitcoin_new.Buffer.Stream.{remaining, all_remaining, length-remaining}
use app_bitcoin_new.Client.{Context, Call, failed, done, ◌>>=◌, >>=-eq-done}
use app_bitcoin_new.Client.Received.{Fits}
use app_bitcoin_new.Client.Map.{
  MerkleizedMapCommitment, call_get_merkleized_map_value_hash, fail_as,
}
use app_bitcoin_new.Client.Map.Lookup.{fail_as-eq-done}
use app_bitcoin_new.Client.Map.Value.{call_get_merkleized_map_value_hash-AllFit}
use app_bitcoin_new.Client.Stream.{call_stream_preimage, calls}
use app_bitcoin_new.Client.Stream.Rounds.{IsWhole}
use app_bitcoin_new.Client.Stream.Sound.{EmptyStart, call_stream_preimage-Streamed}
use app_bitcoin_new.Parser.{error, need_more, complete, endless}
use app_bitcoin_new.Rawtx.Outputs.{TxidOutputs}
use app_bitcoin_new.Rawtx.Transaction.{RawtxState}
use app_bitcoin_new.Rawtx.Process.{store_size, ParseState, cb_process_data, process_parts}
use app_bitcoin_new.Rawtx.Feed.{Outcome, parse_all, Represents, FitsStore, IsAfter}
use app_bitcoin_new.Rawtx.InParts.{IsPart, AllFit, process_parts-Represents}
use app_bitcoin_new.Rawtx.Call.{start_state, call_psbt_parse_rawtx}

-- The state of the parser at the start.
abbrev pub first_context : TxidOutputs → ParseState → ℕ × RawtxState
first_context outputs memory =
    (0, record memory.parser_context.1 { hashed = []; parser_outputs = outputs })

module _ (i : Option ℕ) (context : ℕ × RawtxState) where
  -- A transaction of 2^32 - 32 bytes or more, or one with a front part of which the parser leaves more than
  -- 32 bytes where it waits for more data.
  abbrev pub TooLong : List ℕ → Type 0
  TooLong tx =
      (2 ^ 32 ≤ length tx + store_size)
      ⊎ ((front : List ℕ) × (back : List ℕ) × (front ++ back ≡ tx)
          × (¬ FitsStore (parse_all i context front)))

  -- The parser does not fail on the transaction, and leaves this hash and these outputs.
  abbrev pub Parsed : (List ℕ → List ℕ) → List ℕ → List ℕ → TxidOutputs → Type 0
  Parsed sha256 tx txid outputs =
      let (r, (cur_step, state), rest) = parse_all i context tx in
      ((r ≡ complete) ⊎ (r ≡ need_more))
      × (txid ≡ sha256 (take 32 (sha256 state.hashed)))
      × (outputs ≡ state.parser_outputs)

  fits_or_not : (o : Outcome) → FitsStore o ⊎ (¬ FitsStore o)
  unfolding FitsStore
  fits_or_not (need_more, c, s) = elim (dec_le (length s) store_size) [
    | yes p ↦ inl p
    | no p ↦ inr p
  ]
  fits_or_not (error, c, s) = inl tt
  fits_or_not (complete, c, s) = inl tt
  fits_or_not (endless, c, s) = inl tt

  AllFit-or-not :
      (before : List ℕ) (parts : List Buffer)
      → AllFit i context before parts
        ⊎ ((front : List ℕ) × (back : List ℕ) × (front ++ back ≡ before ++ all_remaining parts)
            × (¬ FitsStore (parse_all i context front)))
  unfolding AllFit
  AllFit-or-not before [] = inl tt
  AllFit-or-not before (part ∷ parts) =
      let rest = AllFit-or-not (before ++ remaining part) parts in
      let e = append_assoc before (remaining part) (all_remaining parts) in
      elim (fits_or_not (parse_all i context (before ++ remaining part))) [
        | inr not ↦ inr (before ++ remaining part, all_remaining parts, e, not)
        | inl fits ↦ elim rest [
          | inl all ↦ inl (fits, all)
          | inr (front, back, same, not) ↦ inr (front, back, same ∙ e, not)
        ]
      ]

wholes-IsPart :
    (parts : List Buffer) (n : ℕ)
    → All IsWhole parts
    → length (all_remaining parts) ≤ n
    → n + store_size < 2 ^ 32
    → All IsPart parts
wholes-IsPart [] n h le small = tt
wholes-IsPart (part ∷ parts) n ((v, start), hs) le small =
    let l = length-append {0} (remaining part) (all_remaining parts) in
    (
      (v, omega (arith, length-remaining part v, start, l)),
      wholes-IsPart parts n hs (omega (arith, l)) small,
    )

module _ (sha256 : List ℕ → List ℕ) (memory : ParseState) (i : Option ℕ) (outputs : TxidOutputs)
    (stored : length memory.store ≡ store_size) where
  context : ℕ × RawtxState
  context = first_context outputs memory

  represented :
      (o : Outcome) (st : ParseState) (txid : List ℕ) (outputs' : TxidOutputs)
      → Represents i o st
      → st.parser_error ≡ false
      → txid ≡ sha256 (take 32 (sha256 st.parser_context.1.hashed))
      → outputs' ≡ st.parser_context.1.parser_outputs
      → ((o.0 ≡ complete) ⊎ (o.0 ≡ need_more))
        × (txid ≡ sha256 (take 32 (sha256 o.1.1.hashed)))
        × (outputs' ≡ o.1.1.parser_outputs)
  unfolding Represents
  represented (need_more, c, s) st txid outputs' (ok, same, _, _, _) fine e e' =
      (inr refl, rw⁻¹ same e, rw⁻¹ same e')
  represented (complete, c, s) st txid outputs' (ok, same, _, _, _) fine e e' =
      (inl refl, rw⁻¹ same e, rw⁻¹ same e')
  represented (error, c, s) st txid outputs' bad fine e e' = cc
  represented (endless, c, s) st txid outputs' h fine e e' = absurd h

  streamed-Parsed :
      (parts : List Buffer) (st : ParseState) (txid : List ℕ) (outputs' : TxidOutputs)
      → All IsWhole parts
      → calls (cb_process_data i) parts (start_state outputs memory) ≡ some st
      → st.parser_error ≡ false
      → txid ≡ sha256 (take 32 (sha256 st.parser_context.1.hashed))
      → outputs' ≡ st.parser_context.1.parser_outputs
      → TooLong i context (all_remaining parts)
        ⊎ Parsed i context sha256 (all_remaining parts) txid outputs'
  unfolding start_state process_parts IsAfter context
  streamed-Parsed parts st txid outputs' ws run ok e e' =
      elim (dec_le (2 ^ 32) (length (all_remaining parts) + store_size)) [
        | yes long ↦ inl (inl long)
        | no short ↦ elim (AllFit-or-not i (first_context outputs memory) [] parts) [
          | inr big ↦ inl (inr big)
          | inl fit ↦
              let after =
                process_parts-Represents i (first_context outputs memory).1 memory.store parts
                  stored
                  (wholes-IsPart parts (length (all_remaining parts)) ws (omega arith)
                    (omega arith))
                  fit in
              let r : Represents i
                  (parse_all i (first_context outputs memory) (all_remaining parts)) st =
                subst
                  (λ (q : Option ParseState).
                    IsAfter i (parse_all i (first_context outputs memory) (all_remaining parts)) q)
                  run after in
              inr (represented _ st txid outputs' r ok e e')
        ]
      ]

  -- Where the store of the state has 32 bytes, and no message is longer than the APDU buffer or than 32 bits tell:
  -- if `call_psbt_parse_rawtx` succeeds, then `call_get_merkleized_map_value_hash` succeeded with a hash, and
  -- then either the first message behind has no data of the transaction, or there is one whose bytes, behind
  -- one byte, are a preimage of that hash. That transaction is too long, or its front leaves the parser too much
  -- to keep; or the parser does not fail on it, and the id is the digest of the digest of the bytes that the
  -- parser hashes of all of it, and the outputs are those that it leaves.
  pub call_psbt_parse_rawtx-Parsed :
      (m : MerkleizedMapCommitment) (key : List ℕ) (key_len : ℕ) (dc : Context) (txid : List ℕ)
      (outputs' : TxidOutputs) (dc' : Context)
      → All Fits dc.incoming
      → call_psbt_parse_rawtx sha256 memory m key key_len i outputs dc ≡ done (txid, outputs') dc'
      → (value_hash : List ℕ) × (dc0 : Context) × (call_get_merkleized_map_value_hash sha256 m key
            key_len dc
          ≡ done value_hash dc0)
        × (EmptyStart value_hash dc0
            ⊎ ((tx : List ℕ) × (first : ℕ) × (take 32 (sha256 (first ∷ tx)) ≡ take 32 value_hash)
                × (TooLong i (first_context outputs memory) tx
                    ⊎ Parsed i (first_context outputs memory) sha256 tx txid outputs')))
  unfolding call_psbt_parse_rawtx context
  call_psbt_parse_rawtx-Parsed m key key_len dc txid outputs' dc' fits e =
      let find = call_get_merkleized_map_value_hash sha256 m key key_len dc in
      let stream : List ℕ → Context → Call (ℕ × ParseState) = λ h d. fail_as 1 (
        call_stream_preimage (cb_process_data i) sha256 (λ len state. state) h
          (start_state outputs memory) d) in
      let finish : ℕ × ParseState → Context → Call (List ℕ × TxidOutputs) = λ streamed d.
        if streamed.1.parser_error
        then failed 1 d
        else done
            (
              sha256 (take 32 (sha256 streamed.1.parser_context.1.hashed)),
              streamed.1.parser_context.1.parser_outputs,
            )
            d in
      let (value_hash, dc0, e0, e1) =
        >>=-eq-done (fail_as 1 find) (λ h d. stream h d >>= finish) e in
      let found = fail_as-eq-done 1 find value_hash dc0 e0 in
      let (streamed, dc1, e2, e3) = >>=-eq-done (stream value_hash dc0) finish e1 in
      let fits0 =
        call_get_merkleized_map_value_hash-AllFit sha256 m key key_len dc value_hash dc0 fits
          found in
      (
        value_hash,
        dc0,
        found,
        elim (call_stream_preimage-Streamed (cb_process_data i) sha256 (λ len state. state)
            value_hash (start_state outputs memory) dc0 streamed.0 streamed.1 dc1 fits0
            (fail_as-eq-done 1 _ streamed dc1 e2)) [
              | inl empty ↦ inl empty
              | inr (parts, first, ws, run, total, digest) ↦
                  elim (Bool-cases streamed.1.parser_error) [
                    | inl bad ↦ let e4 = rw bad at e3 in cc
                    | inr ok ↦
                        let e4 = rw ok at e3 in
                        let last = streamed.1.parser_context.1 in
                        let is_id : txid ≡ sha256 (take 32 (sha256 last.hashed)) = cc in
                        let is_outputs : outputs' ≡ last.parser_outputs = cc in
                        inr (
                          all_remaining parts,
                          first,
                          digest,
                          streamed-Parsed parts streamed.1 txid outputs' ws run ok is_id is_outputs,
                        )
                  ]
            ],
      )
