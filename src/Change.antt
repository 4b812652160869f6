-- ===== src/Change.antt =====
-- Gate-skip change detection (change_detect.py): the gated inputs, their digest, and the record of
-- the last green state that a Stop may trust.
pub mod Inputs
pub mod Record
pub mod Digest
pub mod Skip
