-- ===== src/Tests.antt =====
-- Runs of the definitions on small inputs, and the theorems at inputs that meet their hypotheses.
mod Samples
mod Scheduling
mod Lifecycles
mod Capacity
mod Machine
mod References
mod Validation
mod Builds
mod Agent
mod Idempotency
mod Nodes
mod Stale
