-- ===== src/Tests.antt =====
-- The properties at concrete inputs.
mod Send
mod Receive
mod Device
mod Opening
mod Engine
mod Startup
mod SafeRun
mod Interleaving
mod Logging
mod Bridge
mod Settings
mod Unplugged
mod Conversion
mod Situation
mod Schedule
mod Together
