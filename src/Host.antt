-- ===== src/Host.antt =====
-- runtime_http_host.go: the HTTP server through which the runtime calls the callbacks of a run.
pub mod Logs
pub mod Requests
pub mod Metadata
pub mod Routes
pub mod Invoke
pub mod Thresholds
pub mod Handlers
pub mod Dispatch
pub mod Tests
