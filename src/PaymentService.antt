-- ===== src/PaymentService.antt =====
-- apps/payment-service: the protocol with the partner banks.
pub mod Rules
pub mod Payments
pub mod Interbank
mod Tests
