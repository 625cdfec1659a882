-- ===== src/Examples.antt =====
-- Runs of the model on concrete inputs.
mod Data
mod Caches
mod Discovery
mod Scaling
mod Pools
mod Growing
mod Deleting
mod Settings
mod Templates
