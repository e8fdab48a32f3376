-- ===== src/Service.antt =====
-- pkg/service: the gRPC services and the scheduler.
pub mod World
pub mod Reply
pub mod Handler
pub mod Keeps
pub mod Grants
pub mod Refund
pub mod Cancel
pub mod Sync
pub mod Webhook
pub mod Scheduler
pub mod Admin
pub mod Payment
pub mod Public
pub mod Calls
