-- ===== src/Values.antt =====
-- internal/domain/values.go: the value types that the aggregates are built from.
pub mod Ids
pub mod Hex
pub mod Instant
pub mod Keys
