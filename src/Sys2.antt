-- ===== src/Sys2.antt =====
-- sys2/: the module behind /sys/kernel/mymodule/my_data. A write stores a command and runs its
-- handler; the handlers list and change tasks, network interfaces and open files. A netfilter hook
-- counts packets. One child for each source file, `Command` and `Load` for sys2.c.
pub mod Console
pub mod Parse
pub mod Task
pub mod Packet
pub mod Interface
pub mod Route
pub mod Descriptor
pub mod Command
pub mod Load
pub mod Session
