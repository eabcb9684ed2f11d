-- ===== src/Examples.antt =====
-- Concrete instances of what the development takes as parameters, tests, and the theorems at
-- concrete inputs.
pub mod Memory
mod Tables
mod Broker
mod Messenger
mod Service
mod Commands
mod Storage
mod Startup
mod Pages
mod Signing
mod Life
mod Certificates
