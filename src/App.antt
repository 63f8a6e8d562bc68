-- ===== src/App.antt =====
-- The programs in user space that try the character devices.
pub mod ReadWrite
pub mod Ioctl
