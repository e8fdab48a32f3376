-- ===== src/Adapter.antt =====
-- internal/adapter: what the gateway knows of a payment provider.
pub mod Types
pub mod Effects
pub mod Provider
pub mod SyncStatus
pub mod Http
pub mod Hex
pub mod Komoju
pub mod Xendit
pub mod Generic
