-- ===== src/PaymentService/Tests.antt =====
-- The tests of the payment service.
mod Payments
mod Simulation
mod Interbank
mod Reconciliation
