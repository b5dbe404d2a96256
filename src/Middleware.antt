-- ===== src/Middleware.antt =====
-- pkg/middleware: the middleware that services and the gateway share, one child to a source file.
pub mod RateLimit
pub mod Auth
pub mod Logging
pub mod Codec
pub mod Validate
pub mod Rejection
mod Tests
