-- ===== src/Gateway.antt =====
-- The gateway of src/pqc_bench/gateway: rate limiting and multi-tenant authentication.
pub mod RateLimit
pub mod Auth
mod Examples
