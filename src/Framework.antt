-- ===== src/Framework.antt =====
-- python/drbdtest.py: the cluster of the test framework, its hosts, nodes and resources.
pub mod World
pub mod Json
pub mod Collection
pub mod Config
pub mod Run
pub mod Control
pub mod Connections
pub mod Peers
pub mod Firewall
pub mod Traffic
pub mod Hosts
pub mod Setup
pub mod Streams
pub mod Devices
pub mod Metadata
pub mod Disks
pub mod Resources
pub mod Endurance
