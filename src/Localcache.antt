-- ===== src/Localcache.antt =====
-- internal/localcache: the in-process TTL maps that stand in for Redis.
pub mod Counter
pub mod Store
