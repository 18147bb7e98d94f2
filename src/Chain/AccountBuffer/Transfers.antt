-- ===== src/Chain/AccountBuffer/Transfers.antt =====
-- `transferBalance`: what it moves, what it keeps, and what a failure leaves behind.
pub mod Steps
pub mod Conservation
pub mod Exact
pub mod Failure
