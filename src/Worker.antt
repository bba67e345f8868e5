-- ===== src/Worker.antt =====
-- ipsec_worker.c, the event mode worker: packet types, security policies, routes, single events
-- and event vectors.
pub mod Classify
pub mod Policy
pub mod Route
pub mod Event
pub mod Bulk
pub mod Vector
