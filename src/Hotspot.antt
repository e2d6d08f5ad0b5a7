-- ===== src/Hotspot.antt =====
-- internal/hotspot: the captive portal's redemption limiter.
pub mod Limiter
