-- ===== src/StoreInst.antt =====
-- libstoreinst: the instrumented stores, the undo log, the snapshot and the recovery.
pub mod Memory
pub mod Entry
pub mod Log
pub mod Recovery
pub mod Align
pub mod Apply
pub mod Snapshot
pub mod Stores
pub mod PmemFile
pub mod Wrappers
pub mod BgFlush
