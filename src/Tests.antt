-- ===== src/Tests.antt =====
-- The theorems at concrete inputs, and runs of the definitions.
mod Data
mod CharDev
mod Files
mod Net
mod Message
mod Ring
mod Sys2
mod Audit
mod App
mod Process
mod Symbols
mod WaitQueue
mod Threads
mod Queued
mod Starved
mod Session
