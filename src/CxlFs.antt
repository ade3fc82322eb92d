-- ===== src/CxlFs.antt =====
-- libcxlfs: memory that is cached in page frames and kept on a block device, and the files in it.
pub mod Controller
pub mod Files
pub mod Sampling
pub mod BlkDev
