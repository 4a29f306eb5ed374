-- ===== src/Native.antt =====
-- rust/corsair_broker_ibkr_native/src: requests to the gateway and messages from it.
pub mod Requests
pub mod Template
pub mod SameFrame
pub mod Messages
pub mod Parsed
pub mod Ticks
pub mod Orders
pub mod Accounts
pub mod Decoder
pub mod ContractEnd
pub mod NoPanic
pub mod Decoded
mod Tests
