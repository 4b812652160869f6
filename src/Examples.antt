-- ===== src/Examples.antt =====
-- Tests of the definitions and the theorems at concrete inputs, a module for each part.
mod Adopt
mod Gate
mod Change
mod Ledger
mod Retry
mod Closure
mod Generator
mod HookDedupe
mod Lane
mod Receipts
mod Lexer
mod Trunk
mod Provenance
mod Quotes
mod Identity
mod Executor
mod ApiDiff
mod Charter
mod Rewrite
mod Architecture
mod Tally
mod Advisory
