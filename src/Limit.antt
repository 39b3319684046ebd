-- ===== src/Limit.antt =====
-- core/src/limit.rs: rate limiters. A mutex makes each local `take` one step; the Redis-backed
-- limiters wait for the backend, so their `take` is a start and an end. Clocks are arguments.
pub mod Decision
pub mod Token
pub mod Period
pub mod Bounded
pub mod Redis
mod Tests
