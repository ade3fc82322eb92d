-- ===== src/Containers.antt =====
-- include/container: the vectors and strings that programs keep in persistent memory.
pub mod Vector
pub mod Views
pub mod Strings
