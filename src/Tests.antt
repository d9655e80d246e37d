-- ===== src/Tests.antt =====
-- Concrete inputs: sample libraries, configurations and states, and the theorems on them.
mod Ranges
mod Samples
mod Lists
mod Store
mod Accounts
mod Queries
mod Panel
mod Entries
mod Settings
