-- ===== src/Witnesses.antt =====
-- Concrete runs of the code, at which the hypotheses of the theorems hold.
mod LogRuns
pub mod SnapshotRuns
pub mod PagingRuns
mod FileRuns
mod WrapperRuns
mod QueueRuns
mod DeviceRuns
mod SamplingRuns
mod PassRuns
mod MapRuns
mod ListRuns
mod TreeRuns
