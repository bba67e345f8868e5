-- ===== src/Tests.antt =====
-- Tests on concrete packets, and each theorem at an input that meets its conditions.
pub mod Fixtures
mod Queues
mod Events
mod Bursts
pub mod Lookups
pub mod Engines
mod Processing
mod Sending
mod Helper
mod Settings
mod Cores
