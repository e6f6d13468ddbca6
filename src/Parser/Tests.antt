-- ===== src/Parser/Tests.antt =====
-- Tests of the readers of two buffers.
use app_bitcoin_new.Prelude.{ℕ, ◌≡◌, refl, arith, List, [], ◌∷◌, ◌++◌, some, replicate, length}
use mathlib.Core.Option
use app_bitcoin_new.Bytes.{read_u16_le}
use app_bitcoin_new.Buffer.{Buffer, buffer_read_bytes, le}
use app_bitcoin_new.Buffer.Invariant.{IsValid}
use app_bitcoin_new.Buffer.Stream.{take_bytes, remaining}
use app_bitcoin_new.Parser.{
  Dbuffer, dbuffer_read_bytes, dbuffer_read_varint, dbuffer_read_u16, dbuffer_can_read,
  dbuffer_get_length, bytes_or_same, read_part, parser_consolidate_buffers, parser_run,
}
use app_bitcoin_new.Parser.Stream.{IsValidPair, stream, dbuffer_read_bytes-take_bytes}
use app_bitcoin_new.Parser.Varint.{read_front, dbuffer_read_varint-varint_read}
use app_bitcoin_new.Parser.Consolidate.{parser_consolidate_buffers-remaining}
use app_bitcoin_new.Parser.Run.{Resumed, parser_run-Resumes}
use app_bitcoin_new.Rawtx.{stream_reader}
use app_bitcoin_new.Rawtx.Inputs.{parse_rawtxinput_steps, InputParser}
use app_bitcoin_new.Rawtx.Parts.{parse_rawtxinput_steps-Resumes}

-- Three bytes are left in the first buffer, and three in the second.
abbrev store : Buffer
store = record { address = 0; ptr = 9 ∷ 0xfd ∷ 2 ∷ replicate 29 0; size = 3; offset = 1 }

abbrev part : Buffer
part = record { address = 1; ptr = 1 ∷ 7 ∷ 8 ∷ []; size = 3; offset = 0 }

abbrev two : Dbuffer
two = record { first = store; second = part }

two-IsValidPair : IsValidPair two
two-IsValidPair = record {
  first = record { within = omega arith; region = omega arith; small = omega arith };
  second = record { within = omega arith; region = omega arith; small = omega arith };
  small = omega arith;
}

reads_across : Option.map (λ (r : ℕ × Dbuffer). r.0) (dbuffer_read_u16 two le) ≡ some 0x2fd
unfolding dbuffer_read_u16 dbuffer_can_read dbuffer_get_length dbuffer_read_bytes bytes_or_same
    read_part buffer_read_bytes read_u16_le
reads_across = refl

dbuffer_read_bytes-take_bytes_example :
    Option.map (λ (r : List ℕ × Dbuffer). (r.0, stream r.1)) (dbuffer_read_bytes two 4)
    ≡ take_bytes (stream two) 4
dbuffer_read_bytes-take_bytes_example = dbuffer_read_bytes-take_bytes two 4 two-IsValidPair

dbuffer_read_varint-varint_read_example :
    Option.map (λ (r : ℕ × Dbuffer). (r.0, stream r.1)) (dbuffer_read_varint two)
    ≡ read_front (stream two)
dbuffer_read_varint-varint_read_example =
    dbuffer_read_varint-varint_read two two-IsValidPair
      (omega arith, (omega arith, (omega arith, (omega arith, (omega arith, tt)))))

parser_consolidate_buffers-remaining_example :
    (d' : Dbuffer) × (parser_consolidate_buffers two 32 ≡ some d')
    × (remaining d'.first ≡ stream two)
    × IsValid d'.first
    × (d'.first.offset ≡ 0)
    × (length d'.first.ptr ≡ length two.first.ptr)
parser_consolidate_buffers-remaining_example =
    parser_consolidate_buffers-remaining two 32 two-IsValidPair (omega arith) (omega arith)

abbrev input : ℕ × InputParser
input = (0, ([], record { scriptsig_size = 0; scriptsig_counter = 0 }))

parser_run-Resumes_example :
    Resumed
      (parser_run (parse_rawtxinput_steps stream_reader))
      (replicate 20 5)
      (parser_run (parse_rawtxinput_steps stream_reader) input (replicate 27 4))
      (parser_run (parse_rawtxinput_steps stream_reader) input (replicate 27 4 ++ replicate 20 5))
parser_run-Resumes_example =
    parser_run-Resumes (parse_rawtxinput_steps stream_reader) parse_rawtxinput_steps-Resumes input
      (replicate 27 4) (replicate 20 5)
