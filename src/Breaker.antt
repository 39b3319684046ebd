-- ===== src/Breaker.antt =====
-- core/src/breaker.rs: a circuit breaker with two policies. The mutexes make each call below one
-- step, so a call is a function of the state and of the instant that `Instant::now()` gives it, in
-- nanoseconds; an interleaving of tasks is a sequence of such steps.
pub mod Config
pub mod Consecutive
pub mod Rolling
pub mod Circuit
mod Tests
