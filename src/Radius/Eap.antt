-- ===== src/Radius/Eap.antt =====
-- internal/radius: EAP-MSCHAPv2, its packets, its hashes and its conversations.
pub mod Packet
pub mod Mschap
pub mod Session
pub mod Handler
pub mod RoundTrip
pub mod Keys
pub mod Shaping
pub mod Admission
pub mod Accepts
pub mod Earned
pub mod Steps
pub mod Conversation
pub mod Issued
