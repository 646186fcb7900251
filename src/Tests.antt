-- ===== src/Tests.antt =====
-- The theorems at concrete inputs, and runs of the code, a module for each part of the program.
mod Policy
mod Router
mod Conversation
mod Dedup
mod Tee
mod Placement
mod Selection
mod Messages
mod Runtime
mod WebSocket
mod Reaper
mod Settings
mod Tuning
mod RawLog
mod Examples
mod Sync
mod Steps
