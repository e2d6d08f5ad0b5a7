-- ===== src/Nas.antt =====
-- internal/nas: the bandwidth attributes of each NAS vendor.
pub mod Rate
pub mod Attributes
