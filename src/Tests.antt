-- ===== src/Tests.antt =====
-- The theorems at concrete inputs: a shop with one provider, where a player buys a gem.
mod Fixture
mod Deliveries
mod Requests
mod Payments
mod Stores
mod Collection
mod Documents
mod Orders
mod Grants
mod Adapters
