-- ===== src/Lib.antt =====
-- Verification of the core of the VeChain SDK: what packages/core does to values, transactions and
-- Bloom filters before anything is sent over the network, and of packages/network: its polls, the
-- requests of its client, and its translation of blocks, receipts and logs to JSON-RPC.
--
-- The program. A transaction (packages/core/src/transaction/transaction.ts) is a body and perhaps a
-- signature. Its constructor checks the body; its getters encode it, hash the encoding and recover
-- the signers; handlers/sign.ts signs it and handlers/decode.ts reads an encoding. The encoding is
-- made by profiles (encoding/rlp/rlp.ts), which describe an object as a list of named members, each
-- of a kind (encoding/rlp/kind, with the checks in encoding/rlp/helpers). The kinds, the hashes and
-- the addresses are made of the data model (vcdm): `Hex` and its subclasses. Bloom filters
-- (bloom/bloom.ts, utils/bloom/bloom.ts) take addresses of the model as keys.
--
-- The files.
--   Prelude, Result, Text, Number: the shared names; errors as values (a thrown error is its class
--     and the method or the field that it names); strings as lists of UTF-16 code units with the
--     regular expressions written as functions; JavaScript numbers.
--   Noble: the package @noble/curves/abstract/utils, a parameter with the documented behaviour.
--   Crypto: the packages for hashes and secp256k1, a parameter, and secp256k1/secp256k1.ts and hash
--     over it. Crypto/Keys: what signing and recovering give together.
--   Vcdm/Hex, HexInt, Quantity, ThorId, Revision, Address: the classes of those names, a function for
--     each method. `of_text`, `of`, `bi`, `to_bytes`, `fit`, `compare_to` are `Hex.of`, `bi`, `bytes`,
--     `fit`, `compareTo`. Vcdm/Hex/Value, Order, RoundTrip and Vcdm/Numbers: their laws.
--   Rlp/Value: the values, kinds and profiles of encoding/rlp/types.d.ts. Rlp/Kinds: `data` and
--     `buffer` of each kind, with the helpers. Rlp/Profiler: `_packData`, `_unpackData` and
--     `Profiler` over the package @ethereumjs/rlp, a parameter that decodes what it encoded.
--     Rlp/Blobs, Compact, Numerics, Scalars, Shapes, Arrays, Members, Conditions, RoundTrip: that a
--     value is read back, kind by kind and then for the profiles.
--   Transaction/Body, Decode, Signing, Gas: the class, the two handlers, and the intrinsic gas of
--     utils/transaction/transaction.ts. Transaction/Reserved, Members, Matched, RoundTrip, Signers,
--     Getters, Intrinsic: their laws.
--   Bloom: bloom/bloom.ts; Bloom/Utils: utils/bloom/bloom.ts; Bloom/Bits, Writing, Membership,
--     Composing, AddressTexts, Addresses: that nothing that was added is missed.
--   Poll: packages/network/src/utils/poll/sync.ts, with the calls of the polling function and the clock
--     given round by round; Poll/Waiting: when the loop ends. Derivation: utils/hdnode/hdnode.ts, with
--     Derivation/Joining.
--   Poll/Event: packages/network/src/utils/poll/event.ts, a step relation on the state of a poll with the
--     timers of the engine and the log of the events. Each call that ends has `Handlers`, which say what
--     the handlers of its events do: they may stop the poll and throw, and an `error` with no handler
--     throws. Poll/Listening: what a call does to a poll, part by part; Poll/Moments, Stopping: its laws.
--   ThorClient/Http, Blocks, Transactions: packages/network/src/thor-client and utils/thorest over the
--     HTTP client, a parameter that gives an answer to each path and query. ThorClient/Names: names in
--     place of addresses (utils/vns). ThorClient/Sending, Building, BlockWaiting: sending, waiting, and
--     the bodies. ThorClient/NameMaps, Resolving, Sent, Awaited, Built, Sets, Addresses: their laws.
--   Data: utils/data/data.ts of packages/core.
--   Signer/Populating, Delegation, PrivateKey, Messages: packages/network/src/signer and the
--     delegation handler of thor-client/transactions/helpers. Signer/Delegated, Checksums, Populated:
--     their laws.
--   Provider/Details, LogDetails, Rpc: the types of packages/network/src/thor-client and
--     provider/utils/formatter. Provider/Formatters, Receipts, Logs: the formatters of blocks,
--     transactions, receipts and logs, the criteria of log filters, and the indexes of
--     provider/utils/helpers. Provider/Methods: the JSON-RPC methods on blocks, transactions and
--     receipts. Provider/Subscriptions: the subscriptions of
--     provider/providers/vechain-provider, with Provider/Delivery and Polling on what they get and when
--     they are polled. A poll runs from its start to its end before the next one begins, except in the steps
--     of Provider/Polling, where the block may be got earlier. Provider/Indexes, Numbering, NumberedReceipts, BlockReceipts, Criteria: their laws.
--   Tests: concrete functions in the places of the packages, and the theorems at concrete inputs.
--
-- Bounds and fuel. Numbers are naturals. The 32-bit sums of the Bloom filters and the bytes of their
-- arrays keep their wrap-around (`% 2 ^ 32`, `% 256`). The digits of a number are produced with as
-- many rounds as the number itself, which is never fewer than its digits; Text/Positional proves
-- that the digits have the value of the number. The loop of a poll, which may go on for ever, takes
-- the number of rounds that are left, and Poll/Waiting proves how many are enough where the poll has
-- a maximum of iterations. All other loops are structural recursion.
--
-- Not modelled: the variant of `Hex.of` for a `number` (the bytes of an IEEE 754 double) and
-- `Hex.random`, since they are about the engine; key generation, mnemonics and HD nodes, whose work is
-- done in packages; keystores, certificates, ABI coding and clause builders; the rest of
-- packages/network (the simulation of transactions, contracts, gas estimation, the other JSON-RPC
-- methods and the wallets), and the packages logging, errors and the adapters, which are requests and glue. Numbers that name a
-- block are printed in decimal, so they are below 10^21. The errors of a model
-- carry the class and the name that the source gives, not the message.
pub mod Prelude
pub mod Result
pub mod Text
pub mod Number
pub mod Noble
pub mod Crypto
pub mod Bloom
pub mod Poll
pub mod Derivation
pub mod Vcdm
pub mod Rlp
pub mod Transaction
pub mod Tests
pub mod Provider
pub mod Data
pub mod Signer
pub mod ThorClient
