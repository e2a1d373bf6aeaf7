-- ===== src/Tests.antt =====
-- Runs at concrete inputs: each applies a theorem of the library to values that meet its conditions.
mod Orders
mod Access
mod Directory
mod Events
mod Auditing
mod Sessions
mod Stored
mod Accounts
mod Settings
