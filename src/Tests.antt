-- ===== src/Tests.antt =====
-- The theorems at concrete inputs.
mod Inputs
mod Requests
mod Storing
mod Transport
mod Startup
mod Running
mod Serving
mod Composed
mod Exchanges
mod Starting
mod Redis
mod Handling
