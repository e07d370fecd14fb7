-- ===== src/Replay.antt =====
-- infrareplay/replay
pub mod Engine
pub mod HttpTarget
pub mod Linking
pub mod Substitution
pub mod Playback
pub mod Runner
