-- ===== src/Relay.antt =====
-- `AgentRelay` of pbxsense_agent/relay.py: the durable outbox, the publishing of Signals, and the
-- enrollment of the Agent.
pub mod State
pub mod Outbox
pub mod Publish
pub mod Order
pub mod Dedupe
pub mod Requests
pub mod Activations
pub mod Registration
pub mod Projection
pub mod Snapshots
