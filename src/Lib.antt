-- ===== src/Lib.antt =====
-- Verification of the QoreChain Rollup Development Kit, the TypeScript package under packages/ts.
--
-- The kit is what a rollup's operator, its watchers and its users run against the QoreChain: it computes
-- the roots that a settlement batch publishes, builds the trees and proofs of withdrawals, knows which
-- steps a rollup and a batch may take and when a challenge is in time, and builds and checks the receipts
-- that say that a batch was anchored. The development models those parts as functions and proves what
-- makes them right. It also models what is checked before a rollup is created or a transaction is sent,
-- and the watchtower that judges each batch as it appears.
--
-- How the parts interact: a batch's withdrawals become leaves and a Merkle tree (Withdrawal over Merkle);
-- its root and the batch's other fields become the transition root that the chain judges the batch by
-- (Transition); the batch then moves through the lifecycle (Lifecycle) and is anchored, and a receipt of
-- the anchor is built and verified against the node (Receipts). The transaction client (Tx.Client) builds
-- the messages (Tx.Messages), asks the rules (Rules) before it sends them, signs a batch's anchor by the
-- bytes that receipts are checked by (Receipts.SignBytes), and hands the messages to the wallet library,
-- which encodes them by the codecs (Tx.Codecs over Tx.Wire). The watchtower (Watchtower) polls the
-- batches, tells by the lifecycle's windows which are near their deadline, and by the transition root
-- which are fraudulent; the health report (Health) judges a rollup's latest batch by the same windows.
-- Configurations (Config) are validated by the rules for ids (Rules), and the preflight (Preflight) puts
-- that together with the operator's funds, read as amounts (Amounts). All of them hash and encode by the
-- same helpers (Bytes, QoreHash) and read the node through one interface (Views) or as answers given to
-- a call (Reads, Health, CrossVm, Preflight).
--
-- Files and sources (paths from packages/ts/src):
--   Prelude             library names passed on, Boolean tests, lists over native numbers, results
--   Text                JavaScript strings as lists of code units; Text.Encoder is TextEncoder's UTF-8
--   Bytes               u64be and u32be of transition/index.ts, bridge/withdrawal.ts, receipts/index.ts
--   Bytes.Hex           utils/bytes.ts: bytesToHex, hexToBytes, toBytes, decodeWireBytes
--   QoreHash            utils/qorehash.ts
--   Merkle              bridge/merkle.ts: binaryMerkleRoot, binaryMerkleProof, verifyBinaryMerkleProof
--   Withdrawal          bridge/withdrawal.ts: both leaves, withdrawalsTree, assembleWithdrawalProof
--   Transition          transition/index.ts: both roots, the choice of binding, fraudProof
--   Lifecycle           lifecycle/state-machine.ts: actions, batch statuses, challenge windows
--   Views               client/views.ts: the records; Rest stands for client/rest.ts, RdkClient for
--                       client/rdk-client.ts. Views.Json is what `response.json()` gives, Views.Fields
--                       has pick, str, num and hexBytes, Views.Mappers the map*View functions
--   Receipts            receipts/index.ts: the receipt, its schema and field comparison
--   Receipts.SignBytes  anchorSignBytesV1, anchorSignBytesV2, anchorSignBytes
--   Receipts.Signature  anchorSignBytesVersionFor, signatureOver
--   Receipts.Report     the options and the report
--   Receipts.Verify     verifySettlementReceipt, one definition per step, in the code's order
--   Receipts.Build      buildSettlementReceipt
--   Watchtower          watchtower/index.ts: the variables of watchBatches; Watchtower.Poll is its tick,
--                       Watchtower.Judge the transition-root validator and fraudProofForBatch
--   Rules               rules/index.ts
--   Config              config/enums.ts, matrix.ts, types.ts, validate.ts; Config.Builder is
--                       config/builder.ts, Config.Presets presets/index.ts
--   Tx.Wire             the reader and writer that tx/codecs.ts uses, as an interface with laws, its decode
--                       loop; Tx.Wire.Parses says what bytes mean, Tx.Wire.Toy fills the interface
--   Tx.Codecs.*         tx/codecs.ts, a module for each of the nine messages, with its round trip
--   Tx.Messages         tx/messages.ts and vmTypeWireValue of config/enums.ts
--   Tx.Client           tx/client.ts: Tx.Client.Broadcast connects, sets fees and sends, Tx.Client.Anchor
--                       signs a batch's anchor, Tx.Client.Operations has one definition per operation,
--                       with the sender's field that the input may have in spite of its type as `own`;
--                       Creator, Verified, Guards, Carried, Submission and Refusals are about what is sent
--   CrossVm             crossvm/index.ts
--   Reads               client/rest.ts: paging, protocol features and applied plans; Reads.Requests is
--                       `get` over fetch, Reads.Client and Reads.Accounts have one definition per read,
--                       and fill the record Rest that the other parts take
--   Health              health/index.ts
--   Amounts             utils/denom.ts, utils/economics.ts
--   Preflight           preflight/index.ts
--   Events              events/decode.ts
--
-- How code becomes definitions: a function that throws returns `Result` with the error as a value, and
-- each message of the code is a constructor; a Promise is its outcome, and what the node answers during
-- one call is a `Rest` record. SHAKE-256, the ML-DSA-87 check and base64 are other packages' code: they
-- are parameters, of which nothing is assumed but, where a theorem says so, the digest's length. Claims
-- on hashes read "or the hash has a collision", with the two colliding inputs given.
--
-- Numbers: counts, heights and times that the chain encodes as unsigned are natural numbers; differences
-- that may be negative (a tip before the submission) are integers. The 8-byte encoding keeps its
-- wrap-around, and theorems that need a value to fit say so. A field of a view that arrives as a number
-- that is no natural number ends the mapping with an error, where the code would keep it. Where a text
-- is read as a number it is rounded to a double (Views.Doubles); other numbers are exact here, while the
-- code's sums of heights and times round from 2^53 on.
--
-- Fuel: the loops of the Merkle code that halve a level run on the number of leaves as fuel. A round at
-- least halves a level, rounded up, so the loop has ended by then (Merkle.Levels).
--
-- The decode loop of the codecs runs on one round more than the bytes that remain: each round that goes on
-- takes at least one byte (Tx.Wire.Parses). Paging is bounded by the code itself, at 100000 pages. Printing
-- a number has one digit of fuel more than the number itself, and it has fewer digits than that.
--
-- Interleavings: a watch is a list of polls, and each place where the code reads whether it was stopped
-- takes that answer from the poll, so a stop may fall between any two reads. Its callbacks are events.
--
-- Not modelled: HTTP, timers, the texts of messages, the manifest, accounts and the faucet, the
-- command line tools, and the ports of the kit to other languages. What the wallet library, the protobuf
-- library, keccak256 and the key derivation do is no code of the kit.
pub mod Prelude
pub mod Text
pub mod Bytes
pub mod QoreHash
pub mod Merkle
pub mod Views
pub mod Transition
pub mod Withdrawal
pub mod Receipts
pub mod Lifecycle
pub mod Watchtower
pub mod Rules
pub mod Config
pub mod Tx
pub mod CrossVm
pub mod Reads
pub mod Health
pub mod Amounts
pub mod Preflight
pub mod Events
