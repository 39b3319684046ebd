-- ===== src/Lib.antt =====
-- A model of the runtime core of rust-zero: the parts of core/src that decide whether a call may
-- run, where it runs and what is remembered about it, with the queue of service messages and the
-- signatures of requests; the route policies and tokens of rest/src; and the transcoder of
-- gateway/src from HTTP to gRPC.
--
-- The parts, and the files that model them:
--
-- core/src/rolling.rs: Window. `WindowState` is the bucket queue with the start of its current
--   bucket, `rotate` is `RollingWindow::rotate`, generic in the bucket, and `new`, `record_value`,
--   `snapshot`, `reset` and `average` are the methods. RollingBreaker of core/src/breaker.rs has
--   the same rotation over outcome buckets, and Breaker/Rolling uses it from there.
-- core/src/breaker.rs: Breaker. Breaker/Config has the builders with their assertions,
--   Breaker/Consecutive the consecutive-failure policy (`before_consecutive`,
--   `record_consecutive`), with the calls in flight in Breaker/Consecutive/Probes and
--   Breaker/Consecutive/Stale, Breaker/Rolling the rolling policy (`should_drop`, `record_outcome`,
--   `history`, `random_unit`), Breaker/Circuit the breaker over either policy (`before_call`,
--   `record_outcome`, `state`, `snapshot`), and Breaker/Circuit/Execution `execute` with its
--   completion guard, and the permits.
-- core/src/limit.rs: Limit. Limit/Token is TokenLimiter, Limit/Period is PeriodLimiter,
--   Limit/Bounded is BoundedPeriodLimiter, and Limit/Redis is RedisLimiterMonitor with the `take`
--   of the two Redis limiters. Those fall back to a TokenLimiter and a BoundedPeriodLimiter.
--   Limit/Redis/Probing has traces of calls, replies and dropped futures.
--   Limit/Decision has what the limiters share.
-- core/src/cache.rs: Cache. Cache/Ttl is TtlCache with `jittered_ttl`, Cache/Memory is
--   MemoryCache, and Cache/Recency its queue. Cache/ReadThrough is ReadThroughCache, which joins a
--   MemoryCache with a SingleFlight.
-- core/src/load.rs: Load. Load/Config has the builders, Load the buckets with `rotate_buckets`,
--   `rolling_capacity` and `production_limit`, and Load/Shedder the critical sections of
--   `try_acquire` (`check`, `smooth`) and of the permit's drop (`drop_permit`). Load/Shedder/Threads
--   is the step relation of the threads.
-- core/src/singleflight.rs: SingleFlight. `execute` is `join` up to its `await`, then `land`, or
--   `cancel` if the leader's guard is dropped. SingleFlight/Accounts is the step relation of the
--   callers.
-- core/src/balancer.rs: Balancer. A request keeps the index of its node. `pick` draws two indices
--   from the random state (`draw`, Balancer/Random), takes one of the two nodes (`choose`,
--   Balancer/Choice), and marks it; `complete` ends a request. Balancer/Accounts is a run of such
--   calls.
-- core/src/hash.rs: Hash. The ring is a sorted list of hashes with the nodes of each. `add`, `remove`
--   and `get` are the methods; Hash/Ring compares the ring with the calls that made it.
-- core/src/bloom.rs: Bloom. The words of bits are a list; `insert`, `contains` and `clear` are the
--   methods.
-- core/src/executor.rs: Executor. Executor/Batch and Executor/Chunk are rounds of `run_worker` and
--   `run_chunk_worker`, and Executor/Loop is the loop over what `select!` gives. Executor/Delay is
--   the step relation of the callers of DelayExecutor's `trigger` and its worker, and Executor/Less is
--   LessExecutor.
-- rest/src/route.rs: Route. Route has the configuration and its checks, Route/Compile
--   `RoutePolicies::compile`, `find` and `with_middleware`, Route/Chain the middleware chain, and
--   Route/Call the handling of a request, which joins these with the tokens of Jwt.
-- rest/src/auth.rs: Jwt. `bearer_token`, `encode_hs256` and `decode_hs256`, and `authorize`, which
--   is what `JwtAuthMiddleware::call` makes of a header. The crates base64, hmac and serde_json are
--   arguments (`Crates`), with the laws that they document (`CrateLaws`).
-- gateway/src/transcode.rs: Transcode. Templates and percent decoding are in Transcode,
--   `TranscoderBuilder::build` and the choice of a route in Transcode/Routes, `insert_json_path` in
--   Transcode/Json, and `request_message`, `invoke` and `handle` in Transcode/Request. Descriptors, the
--   texts of JSON and the upstream are arguments; the metadata of a request is left out.
-- core/src/queue.rs: Queue. `poll_in` is a poll of `worker_loop`, with a worker's place in the loop as
--   its phase; Queue/Workers puts polls of all workers between the calls of `pause`, `resume`,
--   `shutdown` and `try_push`. Queue/Pushers has BalancedPusher and FanoutPusher.
-- core/src/auth.rs: Signature. `canonical`, `sign_request` and the verifier; base64 and HMAC are
--   arguments (`Mac`) with the laws that they document (`MacLaws`).
--
-- Conventions. A method that the source runs under one lock is one function from the state to the
-- new state. The clock is an argument: an instant or a duration is a number of nanoseconds, and a
-- limiter's Unix time is a number of milliseconds. A panic (a failed assertion, `expect` or a
-- division by zero) is `none`, and a `Result` is the type of Prelude/Results or one of the module.
-- Machine integers wrap as in a release build, or saturate where the source says so
-- (Prelude/Words). A HashMap is an association list (Prelude/HashMap). An f64 is an element of an
-- abstract type with the operations that the source uses (Floats); theorems assume of it what
-- FloatLaws says, or nothing, and Floats/Naturals is one instance. A call that waits is two
-- functions, up to its `await` and from there on, so that interleavings and dropped futures are
-- sequences of calls. No model needs fuel: each loop is a recursion over a list or a count.
--
-- Not modelled: the Lua scripts of the Redis limiters, whose reply is an argument, SHA-256,
-- which is an argument too, `with_rate` of the Bloom filter, PeriodicExecutor, the collection of
-- a queue's tasks at its shutdown, the metadata of a transcoded request and the loading of its
-- descriptors, the hash order of maps, overflow of instants and durations other than the
-- end of a cooldown and the sum of latencies in Load/Shedder, locks after a panic that poisons them, and the parts of the repository that talk to networks, files and
-- databases.
pub mod Balancer
pub mod Bloom
pub mod Breaker
pub mod Cache
pub mod Executor
pub mod Floats
pub mod Hash
pub mod Jwt
pub mod Limit
pub mod Load
pub mod Prelude
pub mod Queue
pub mod Route
pub mod Signature
pub mod SingleFlight
pub mod Transcode
pub mod Window
