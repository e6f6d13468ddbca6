-- ===== src/Client/Received.antt =====
-- What a successful exchange with the client leaves, where no message is longer than the APDU buffer.
use app_bitcoin_new.Prelude.{
  ℕ, ◌-◌, ◌^◌, ◌≤◌, ◌<◌, ◌≡◌, refl, arith, List, [], ◌∷◌, Option, none, some, true, length,
  length-take, length-drop, take, ltb, ◌==◌, not, ◌||◌, inl, inr, Bool-cases, All,
}
use mathlib.Core.Path.{subst}
use app_bitcoin_new.Bytes.{at}
use app_bitcoin_new.Buffer.{Buffer, buffer_create, buffer_get_cur, buffer_can_read, sub_size}
use app_bitcoin_new.Buffer.Invariant.{IsValid}
use app_bitcoin_new.Client.{
  Context, done, Incoming, io_error, received, Command, apdu_parser, accept, exchange,
  process_interruption, interrupt,
}
use app_bitcoin_new.Client.LeafHash.{bytes_eq}

-- The length that `io_exchange` reports is within the APDU buffer, and has 32 bits.
abbrev pub Fits : Incoming → Type 0
Fits io_error = Unit {0}
Fits (received buf input_len) = (input_len ≤ length buf) × (input_len < 2 ^ 32)

pub bytes_eq_sound : (xs ys : List ℕ) → bytes_eq xs ys ≡ true → xs ≡ ys
unfolding bytes_eq
bytes_eq_sound [] [] e = refl
bytes_eq_sound [] (y ∷ ys) e = cc
bytes_eq_sound (x ∷ xs) [] e = cc
bytes_eq_sound (x ∷ xs) (y ∷ ys) e = elim (Bool-cases (x == y)) [
  | inl same ↦
      let tails = bytes_eq_sound xs ys (rw same at e) in let heads : x ≡ y = ground arith in cc
  | inr other ↦ let e' = rw other at e in cc
]

-- The buffer that is read is valid, and what is still to come fits.
abbrev pub Ready : Context → Type 0
Ready dc = IsValid dc.read_buffer × All Fits dc.incoming

-- The data of a command that the parser gives is all in the buffer.
HasData : Option Command → Type 0
HasData none = Unit {0}
HasData (some cmd) = (cmd.lc ≤ length cmd.cmd_data) × (cmd.lc < 2 ^ 32)

parsed : (buf : List ℕ) (n : ℕ) → n ≤ length buf → n < 2 ^ 32 → HasData (apdu_parser buf n)
unfolding apdu_parser HasData
parsed buf n h small = elim (Bool-cases (ltb n 5 || not (n - 5 == at buf 4))) [
  | inl bad ↦ rw bad tt
  | inr ok ↦
      let lc : n - 5 ≡ at buf 4 = ground arith in
      elim (Bool-cases (ltb 0 (at buf 4))) [
        | inl full ↦ rw (ok, full) (omega (arith, length-drop 5 buf), omega arith)
        | inr empty ↦ rw (ok, empty) (ground arith, omega arith)
      ]
]

accept-Ready :
    (o : Option Command) (dc : Context)
    → HasData o
    → All Fits dc.incoming
    → (accept o dc).0 ≡ true
    → Ready (accept o dc).1
unfolding accept HasData buffer_create
accept-Ready none dc h fits e = cc
accept-Ready (some cmd) dc (h, small) fits e =
    elim (Bool-cases (not (cmd.cla == 0xF8) || not (cmd.ins == 0x01))) [
      | inl bad ↦ let e' = rw bad at e in cc
      | inr ok ↦ rw ok (record { within = omega arith; region = h; small = small }, fits)
    ]

exchange-Ready :
    (ms : List Incoming) (dc : Context)
    → All Fits ms
    → (exchange ms dc).0 ≡ true
    → Ready (exchange ms dc).1
unfolding exchange
exchange-Ready [] dc h e = cc
exchange-Ready (io_error ∷ ms) dc h e = cc
exchange-Ready (received buf n ∷ ms) dc ((fits, small), h) e =
    accept-Ready (apdu_parser buf n) (record dc { incoming = ms }) (parsed buf n fits small) h e

pub interrupt-Ready :
    (code : ℕ) (dc : Context) (u : Unit {0}) (dc' : Context)
    → All Fits dc.incoming
    → interrupt code dc ≡ done u dc'
    → Ready dc'
unfolding interrupt process_interruption
interrupt-Ready code dc u dc' h e = elim (Bool-cases (process_interruption dc).0) [
  | inr bad ↦ let e' = rw bad at e in cc
  | inl ok ↦
      let e' = rw ok at e in
      let same : (process_interruption dc).1 ≡ dc' = cc in
      subst Ready same (exchange-Ready dc.incoming dc h ok)
]

-- The bytes from the cursor on, as many as can be read.
pub length-take-get_cur :
    (b : Buffer) (n : ℕ)
    → IsValid b
    → buffer_can_read b n ≡ true
    → length (take n (buffer_get_cur b)) ≡ n
unfolding buffer_can_read
length-take-get_cur b n v e =
    let wide : n ≤ sub_size b.size b.offset = ground arith in
    omega (
      arith,
      wide,
      v.within,
      v.region,
      v.small,
      length-take {0} n (buffer_get_cur b),
      length-drop {0} b.offset b.ptr,
    )
