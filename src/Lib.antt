-- ===== src/Lib.antt =====
-- Verification library of the Bitcoin application for Ledger devices.
--
-- The program answers commands of a client on an untrusted host. Integers, cursors over memory,
-- derivation paths and Merkle trees are the layer under every command (src/common); the handlers
-- (src/handler) ask the client for more data and check each answer against a Merkle root.
--
-- Which file models which part:
-- - Bytes: src/common/read.c and src/common/write.c, under the functions' names. A pointer is the list
--   of bytes of the region that starts there; a read beyond the region gives 0 and a write beyond it
--   changes nothing, and the theorems state where that cannot happen.
-- - Varint: src/common/varint.c. A result of -1 is `none`; otherwise the returned length stands beside
--   the value read or the region written.
-- - Buffer: src/common/buffer.c and src/common/buffer.h. `buffer_t` is the record `Buffer`; a function
--   returns its result, what it stores through a pointer, and the buffer. `size_t` has 32 bits, as on
--   the device. Buffer.Stream states the readers against a plain list of bytes.
-- - Bip32: src/common/bip32.c: reading a path and the checks of standard paths. The parameter
--   `int expected_change` is an enumeration.
-- - Merkle: src/common/merkle.c and src/common/merkle.h. SHA-256 is the device's library, a parameter.
--   `ceil_lg` and the loop of `merkle_get_ith_direction` run on fuel of 32 and 33 rounds, which is
--   enough for sizes up to 2^31 by the theorems; Merkle.Tree holds the trees that the code has in mind.
-- - Script: get_script_type and format_opscript_script of src/common/script.c. The array `out` is the list
--   of the characters that are written; its length is the result.
-- - Client: what handler/lib uses of src/boilerplate: apdu_parser, and process_interruption over the list
--   of messages that the client is still to send; Client.LeafHash: src/handler/lib/get_merkle_leaf_hash.c.
--   A negative result is `failed`; success is `done`, with what is stored through the pointers. The
--   rounds run on fuel of one more than the messages that are left: each round but the last takes one.
--   Each list of messages is finite; the loop of the source takes answers without elements, and runs on
--   for as long as the client sends them.
-- - Client.Preimage: src/handler/lib/get_preimage.c, get_merkle_preimage.c and get_merkle_leaf_element.c.
--   The state of the device's hash is the bytes that it was updated with; the pointer that a chunk is
--   copied from is an argument of the loop, since the two functions differ in it.
-- - Client.Map: src/handler/lib/get_merkle_leaf_index.c, get_merkleized_map_value.c and
--   get_merkleized_map_value_hash.c, with the conversions of sizes and indices to 32 bits.
-- - Client.Stream: src/handler/lib/stream_preimage.c, for any callback on a state of its own. What the
--   callback did before a failure is not kept. Client.Stream.Values: stream_merkle_leaf_element.c and
--   stream_merkleized_map_value.c beside it.
-- - Client.Sorted: src/handler/lib/check_merkle_tree_sorted.c; Client.Sorted.Map:
--   src/handler/lib/get_merkleized_map.c. An array that is not initialised is an argument.
-- - Client.Received: what a successful exchange leaves.
-- - Parser: src/common/parser.c. `buffer_t *buffers[2]` is a pair of buffers of different regions. A step is
--   a function of its state and of what it reads from; `endless` is the result of one that does not return.
--   Parser.Stream states the readers against a plain list of bytes.
-- - Rawtx: src/handler/lib/psbt_parse_rawtx.c. The steps are functions of the
--   readers that they call: those of parser.c, or the same on a list of bytes. A step changes its part of
--   the state; the bytes that the device's hash was updated with are the field `hashed`. The loops over
--   chunks run on fuel of one more than the bytes that are left: each round but the last takes one or more.
--   Rawtx.Inputs, Outputs, Witnesses and Transaction are the parsers, Rawtx.Process is cb_process_data and
--   Rawtx.Call is call_psbt_parse_rawtx; the output index -1 is `none`.
-- - Prelude: shared names, lists with native indices, and the bitwise operations as arithmetic.
-- Tests and the theorems at concrete inputs stand in a module Tests of each part.
--
-- Not modelled: the screens, I/O, start-up and the legacy application; the copies of the Bech32 and
-- printf libraries; the cryptographic library of the device.
pub mod Prelude
pub mod Bytes
pub mod Varint
pub mod Bip32
pub mod Buffer
pub mod Merkle
pub mod Client
pub mod Parser
pub mod Rawtx
pub mod Script
