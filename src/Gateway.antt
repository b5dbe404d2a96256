-- ===== src/Gateway.antt =====
-- app/gateway: the reverse proxy in front of the services. `Upstream` keeps the nodes of a service,
-- `Handler` forwards to one of them behind `Breaker`, `Cors` and `Server` put the routes together.
pub mod Upstream
pub mod Breaker
pub mod Writers
pub mod Outbound
pub mod Handler
pub mod Cors
pub mod Server
pub mod Stack
pub mod Main
mod Tests
