-- ===== src/Examples.antt =====
-- Tests of the definitions, and the theorems at concrete inputs.
mod Sessions
mod Streams
mod Selections
mod Dispatching
mod Preflights
mod Integrities
mod Verifying
mod Paths
mod Plans
mod Payloads
mod Executions
