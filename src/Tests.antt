-- ===== src/Tests.antt =====
-- The theorems at concrete inputs, and runs of the model.
mod Data
mod Accounts
mod Events
mod Receipts
mod Outboxes
mod Devices
mod Sessions
mod Federation
mod Peers
mod Limits
mod Api
mod Wire
mod Sending
mod Health
