-- ===== src/Tests.antt =====
-- The theorems at concrete inputs.
mod Setup
mod Wires
mod Headers
mod Collects
mod Bakes
mod Fuzzes
mod Labs
mod Planes
mod Selfs
