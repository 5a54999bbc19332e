-- ===== src/Server.antt =====
-- The handlers of push_relay/app.py over a document store.
pub mod Store
pub mod Paths
pub mod Texts
pub mod Usage
pub mod Auth
pub mod Tickets
pub mod Registrations
pub mod Activations
pub mod Tokens
pub mod Ownership
pub mod Memory
pub mod Calls
pub mod Runs
pub mod Delivery
pub mod Refusals
pub mod Holds
pub mod Replay
pub mod Claims
pub mod Exchange
pub mod Events
pub mod Snapshots
