-- ===== src/Tests.antt =====
-- Concrete policies, binaries and logs, and the theorems at them.
mod Transfer
mod DocTransfer
mod Scripts
mod Unikernels
mod Schema
mod Generators
mod Policies
