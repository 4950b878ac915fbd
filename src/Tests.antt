-- ===== src/Tests.antt =====
-- Runs of the model on small inputs, and the properties applied to them.
mod Files
mod Sim
mod Device
mod Pipeline
mod Phases
mod Checks
mod Menu
mod Writing
mod Table
mod Values
mod Inputs
