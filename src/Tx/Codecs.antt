-- ===== src/Tx/Codecs.antt =====
-- packages/ts/src/tx/codecs.ts: the codecs of the transaction messages, a module to each.
pub mod CreateRollup
pub mod CreateRollupResponse
pub mod SubmitBatch
pub mod ChallengeBatch
pub mod ResolveChallenge
pub mod PauseRollup
pub mod ResumeRollup
pub mod StopRollup
pub mod ExecuteWithdrawal
pub mod Newer
mod Tests
