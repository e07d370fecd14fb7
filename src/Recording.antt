-- ===== src/Recording.antt =====
-- infrareplay/recording
pub mod Correlate
pub mod Database
pub mod Portable
pub mod Service
pub mod Transfer
