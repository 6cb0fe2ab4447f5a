-- ===== src/Examples.antt =====
-- The theorems at concrete inputs.
mod Samples
mod Issuing
mod Renewals
mod Ledger
mod Publishing
mod Dates
mod Deliveries
mod Accounts
mod Changes
mod Names
mod Throttling
mod Retrying
mod Slots
mod Services
mod Logins
mod Resets
mod Batches
mod Finalized
mod Restarts
mod Downloads
