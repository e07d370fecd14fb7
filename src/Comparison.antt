-- ===== src/Comparison.antt =====
-- infrareplay/comparison, and the comparators of infrareplay/plugins/comparators.
pub mod Normalize
pub mod Comparators
pub mod Engine
