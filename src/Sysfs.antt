-- ===== src/Sysfs.antt =====
-- kernel/hwe_sysfs.c: interfaces, their devices, and the devices' request-response pairs.
pub mod Bitmap
pub mod Dev
pub mod Registry
pub mod Calls
pub mod Files
pub mod Load
