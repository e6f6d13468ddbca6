-- ===== src/Client.antt =====
-- The exchange with the client: boilerplate/dispatcher.c and boilerplate/dispatcher.h as far as the
-- functions of handler/lib use them.
pub mod LeafHash
pub mod Preimage
pub mod Map
pub mod Stream
pub mod Sorted
pub mod Received
pub mod Tests
use app_bitcoin_new.Prelude.{
  ◌≡◌, refl, arith, ℕ, ◌-◌, List, [], ◌∷◌, ◌++◌, Option, none, some, drop, ltb, Bool, true, false,
  not, ◌||◌, ◌==◌, if◌then◌else◌,
}
use app_bitcoin_new.Bytes.{at}
use app_bitcoin_new.Buffer.{Buffer, buffer_create}

-- `command_t`. The data is the APDU buffer from the command's data on, which may hold more than `lc`
-- bytes; a NULL pointer is an empty region.
pub record Command : Type 0 where
  pub cla : ℕ
  pub ins : ℕ
  pub p1 : ℕ
  pub p2 : ℕ
  pub lc : ℕ
  pub cmd_data : List ℕ

-- `apdu_parser`: `none` is the result false. The offsets of CLA, INS, P1, P2, LC and the data in the
-- buffer are 0 to 5.
unfoldable pub apdu_parser : List ℕ → ℕ → Option Command
apdu_parser buf buf_len =
    if ltb buf_len 5 || not (buf_len - 5 == at buf 4)
    then none
    else some (record {
      cla = at buf 0;
      ins = at buf 1;
      p1 = at buf 2;
      p2 = at buf 3;
      lc = at buf 4;
      cmd_data = if ltb 0 (at buf 4) then drop 5 buf else [];
    })

-- What `io_exchange` gives: an error, or the APDU buffer with the length of the input.
pub data Incoming : Type 0 where
  io_error : Incoming
  received : List ℕ → ℕ → Incoming

abbrev pub cla_framework : ℕ
cla_framework = 0xF8

abbrev pub ins_continue : ℕ
ins_continue = 0x01

abbrev pub sw_interrupted_execution : ℕ
sw_interrupted_execution = 0xE000

abbrev pub sw_wrong_data_length : ℕ
sw_wrong_data_length = 0x6A87

abbrev pub sw_incorrect_data : ℕ
sw_incorrect_data = 0x6A80

-- `dispatcher_context_t`: the buffer that is read, what the client is still to send, the response
-- that is being put together, and the finished responses with their status words, last first.
pub record Context : Type 0 where
  pub address : ℕ
  pub read_buffer : Buffer
  pub incoming : List Incoming
  pub output : List ℕ
  pub responses : List (List ℕ × ℕ)

unfoldable pub add_to_response : List ℕ → Context → Context
add_to_response rdata dc = record dc { output = dc.output ++ rdata }

unfoldable pub finalize_response : ℕ → Context → Context
finalize_response sw dc = record dc { output = []; responses = (dc.output, sw) ∷ dc.responses }

unfoldable pub set_response : List ℕ → ℕ → Context → Context
unfolding add_to_response finalize_response
set_response rdata sw dc = finalize_response sw (add_to_response rdata dc)

-- The part of `process_interruption` behind the parser. The data of every command has the same
-- `address`.
unfoldable pub accept : Option Command → Context → Bool × Context
accept none dc = (false, finalize_response sw_wrong_data_length dc)
accept (some cmd) dc =
    if not (cmd.cla == cla_framework) || not (cmd.ins == ins_continue)
    then (false, finalize_response sw_incorrect_data dc)
    else (true, record dc { read_buffer = buffer_create dc.address cmd.cmd_data cmd.lc })

-- ... and behind `io_exchange`. Where the client sends nothing more, the exchange fails.
unfoldable pub exchange : List Incoming → Context → Bool × Context
exchange [] dc = (false, dc)
exchange (io_error ∷ rest) dc = (false, record dc { incoming = rest })
exchange (received buf input_len ∷ rest) dc =
    accept (apdu_parser buf input_len) (record dc { incoming = rest })

-- `false` is the result -1.
unfoldable pub process_interruption : Context → Bool × Context
process_interruption dc = exchange dc.incoming dc

-- The answer of a call: it never returns; it returns the error -code; or it succeeds with a value.
pub data Call {ℓ} (A : Type ℓ) : Type ℓ where
  diverges : Call A
  failed : ℕ → Context → Call A
  done : A → Context → Call A

infixl 5 ◌>>=◌
abbrev pub ◌>>=◌ {ℓ κ} : {A : Type ℓ} {B : Type κ} → Call A → (A → Context → Call B) → Call B
diverges >>= f = diverges
failed code dc >>= f = failed code dc
done a dc >>= f = f a dc

-- `if (dc->process_interruption(dc) < 0) return -code;`
unfoldable pub interrupt : ℕ → Context → Call (Unit {0})
interrupt code dc =
    let (ok, dc') = process_interruption dc in if ok then done tt dc' else failed code dc'

-- A check of the buffer, `if (!...) return -code;`, that leaves a value and the buffer behind it.
unfoldable pub check {ℓ} : {A : Type ℓ} → ℕ → Option (A × Buffer) → Context → Call A
check code none dc = failed code dc
check code (some (a, b)) dc = done a (record dc { read_buffer = b })

-- Inversion of a successful call.
pub >>=-eq-done {ℓ κ} :
    {A : Type ℓ} {B : Type κ} (m : Call A) (f : A → Context → Call B) {b : B} {dc' : Context}
    → (m >>= f) ≡ done b dc'
    → (a : A) × (dc : Context) × (m ≡ done a dc) × (f a dc ≡ done b dc')
>>=-eq-done diverges f h = cc
>>=-eq-done (failed code dc) f h = cc
>>=-eq-done (done a dc) f h = (a, dc, refl, h)

pub check-eq-done {ℓ} :
    {A : Type ℓ} (code : ℕ) (o : Option (A × Buffer)) (dc : Context) {a : A} {dc' : Context}
    → check code o dc ≡ done a dc'
    → (b : Buffer) × (o ≡ some (a, b)) × (dc' ≡ record dc { read_buffer = b })
unfolding check
check-eq-done code none dc h = cc
check-eq-done code (some (x, b)) dc {a} {dc'} h = (b, ground arith, ground arith)
