-- ===== src/Fup.antt =====
-- internal/fup: the fair usage policy.
pub mod Scanner
pub mod Breaches
pub mod Settled
pub mod Queued
