-- ===== src/Tx.antt =====
-- packages/ts/src/tx: the codecs of the transaction messages.
pub mod Wire
pub mod Codecs
pub mod Messages
pub mod Client
