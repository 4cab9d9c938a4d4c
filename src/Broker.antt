-- ===== src/Broker.antt =====
-- src/dev_harness/broker: the host-scoped rate-limit broker. Times are whole milliseconds, amounts
-- of tokens whole multiples of 1/60000 of a token, so that a refill of rpm/60 tokens each second is
-- rpm units each millisecond, and money is a whole number of millionths of the price unit.
pub mod Bucket
pub mod Limiter
pub mod Reservation
pub mod Cost
pub mod KillSwitch
pub mod Fallback
pub mod Backoff
pub mod Daemon
pub mod Policies
pub mod Protocol
