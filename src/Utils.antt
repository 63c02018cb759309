-- ===== src/Utils.antt =====
-- kernel/hwe_utils.c, and the kernel routines that tests/kernel_utils.c repeats for it.
pub mod Kernel
pub mod Hex
pub mod Time
pub mod Pair
pub mod Lookup
