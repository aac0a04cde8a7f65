-- ===== src/Tests.antt =====
-- The theorems at concrete inputs: a chain that is a table of cells, two accounts, their documents.
mod Samples
mod Ids
mod Inventories
mod Data
mod Equality
mod Amounts
mod Creating
mod Changing
mod Proposals
mod Encodings
mod Numerals
mod Store
mod Digesting
mod Sessions
mod Balances
