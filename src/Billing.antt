-- ===== src/Billing.antt =====
-- internal/billing: the dunning ladder, the wallet, tax and renewal.
pub mod Dunning
pub mod Wallet
pub mod State
pub mod Gst
pub mod Renewal
