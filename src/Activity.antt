-- ===== src/Activity.antt =====
-- `ActivityTracker` of pbxsense_agent/pulse.py: the moment between two snapshots, the transitions
-- from one moment to the next, and the tracker that keeps the events.
pub mod Moment
pub mod Transitions
pub mod Tracker
pub mod Recoveries
pub mod Announcements
pub mod Retention
