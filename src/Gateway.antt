-- ===== src/Gateway.antt =====
-- The gateway: internal/gateway.
pub mod Http
pub mod Wav
pub mod Stream
pub mod Proxy
pub mod EventLog
pub mod Pipeline
pub mod RequestId
pub mod Middleware
pub mod Config
pub mod Server
pub mod Process
