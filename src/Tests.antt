-- ===== src/Tests.antt =====
-- The theorems at concrete streams, futures and hosts (src/error.rs, src/fuse.rs, src/io.rs, src/tcp.rs,
-- src/tls.rs, src/http.rs).
mod Fixtures
mod Fuses
mod Errors
mod MockIo
mod Streams
mod Sessions
mod Connections
mod Servers
mod Spawns
mod Completions
mod Shutdowns
mod Contracts
mod Drops
mod Deploys
mod Services
mod Lifecycles
mod Benchmarks
mod Trusts
mod Incomings
mod Ages
mod Signals
