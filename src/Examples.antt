-- ===== src/Examples.antt =====
-- The theorems at concrete inputs, and runs of the modelled code.
mod Sets
mod Collections
mod Versions
mod Volumes
mod Runs
mod Deadlines
mod Devices
mod Clusters
mod Hosts
mod Endurance
mod Setups
