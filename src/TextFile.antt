-- ===== src/TextFile.antt =====
-- The modules behind one text file each: procsys/ under /proc/sys, sys/ under /sys/kernel.
pub mod ProcSys
pub mod SysAttr
