-- ===== src/Trader.antt =====
-- rust/corsair_trader/src: the trader process. Pricing is pricing.rs, State is state.rs and
-- messages.rs, Decision is decision.rs, Events and Staleness are the handlers of main.rs, and Expiry
-- is tte_cache.rs.
pub mod Pricing
pub mod State
pub mod Decision
pub mod Events
pub mod Staleness
pub mod Expiry
pub mod Orders
pub mod Quotes
pub mod Safe
pub mod Cooldown
pub mod Linked
pub mod Tracking
pub mod LateAck
pub mod Live
mod Tests
