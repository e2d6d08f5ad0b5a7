-- ===== src/Partner.antt =====
-- internal/partner: the webhooks that are sent to partners.
pub mod Ssrf
pub mod Dispatch
pub mod Outcomes
