-- ===== src/Pricing.antt =====
-- src/pricing: when options expire, and when quoting stops.
pub mod Expiries
pub mod Fridays
pub mod Offered
pub mod Breaker
pub mod Separate
mod Tests
