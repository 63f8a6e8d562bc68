-- ===== src/CharDev.antt =====
-- The character device modules, one child each.
pub mod NewChrdev
pub mod Chrdev
pub mod Mutex
pub mod Ioctl
