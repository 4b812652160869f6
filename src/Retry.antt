-- ===== src/Retry.antt =====
-- The retry count of the Stop hook (retry_state.py): where it is kept, how a failed gate moves it,
-- and the counter that an older hook left inside the tree.
pub mod Count
pub mod Legacy
pub mod Hook
pub mod Bound
pub mod Run
pub mod Outcomes
pub mod Effects
pub mod Session
