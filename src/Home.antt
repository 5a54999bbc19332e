-- ===== src/Home.antt =====
-- The home payload of pbxsense_agent/pulse.py.
pub mod Names
pub mod Presence
pub mod People
pub mod Calls
pub mod Queues
pub mod Labels
pub mod Feed
