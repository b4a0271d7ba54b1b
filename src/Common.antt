-- ===== src/Common.antt =====
-- internal/common/common.go: exponentiation by squaring, and the HTTP client that tries again.
pub mod Power
pub mod Retry
pub mod Random
