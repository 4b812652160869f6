-- ===== src/Closure.antt =====
-- The dependency closure of a project (closure.py): requirement strings, and the walk over what is
-- installed.
pub mod Requirement
pub mod Walk
pub mod Reach
pub mod Fuel
pub mod Extras
pub mod Declared
