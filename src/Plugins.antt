-- ===== src/Plugins.antt =====
-- infrareplay/plugins
pub mod Redaction
pub mod Fixtures
pub mod HttpCapture
pub mod PostgresCapture
pub mod Registry
pub mod MockCapture
pub mod StorageFs
