-- ===== src/Tests.antt =====
-- Runs at concrete inputs, and the theorems of the components at inputs that meet their hypotheses.
mod Folders
mod Accounts
mod Duplicates
mod Utilities
mod Polling
mod Filters
mod Sending
mod Messages
mod Searching
mod Editing
mod Saving
mod Inputs
mod Stores
