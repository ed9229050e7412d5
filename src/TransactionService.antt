-- ===== src/TransactionService.antt =====
-- apps/transaction-service: the saga of a transfer, and its projection for the history.
pub mod Status
pub mod Entity
pub mod Updates
pub mod World
pub mod Publisher
pub mod Query
pub mod Creation
pub mod Incoming
pub mod Consumer
pub mod Retries
mod Tests
