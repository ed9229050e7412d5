-- ===== src/AccountService.antt =====
-- apps/account-service: accounts, the reservations of the saga, and the account side of interbank
-- deposits.
pub mod Rows
pub mod Rules
pub mod Anomaly
pub mod Saga
pub mod Accounts
pub mod Interbank
pub mod Deposits
mod Tests
