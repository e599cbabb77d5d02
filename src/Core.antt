-- ===== src/Core.antt =====
-- core-go/main.go: the configuration, the counters, the ring of recent records, and the state that
-- the workers share.
pub mod Config
pub mod Metrics
pub mod Ring
pub mod State
