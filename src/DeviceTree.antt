-- ===== src/DeviceTree.antt =====
-- The modules that read the device tree: dtsofled/ drives an LED found there, dtsof/ reads the
-- properties of a backlight.
pub mod Led
pub mod Backlight
