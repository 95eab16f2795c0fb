-- ===== src/Store.antt =====
-- storage.py, method by method, in the modules below.
pub mod Nonces
pub mod Accounts
pub mod Sessions
pub mod Cleanup
pub mod Outgoing
pub mod Incoming
pub mod Receipts
pub mod Outbox
pub mod States
pub mod Quota
pub mod Frame
pub mod Devices
pub mod KeyPackages
pub mod Peers
