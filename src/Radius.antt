-- ===== src/Radius.antt =====
-- internal/radius: authentication, its brute-force guard, the cache of verified passwords and MAC
-- authentication bypass.
pub mod BruteForce
pub mod Mac
pub mod VerifierCache
pub mod Auth
pub mod Eap
