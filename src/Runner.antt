-- ===== src/Runner.antt =====
-- run.py: runs the tests of the suite one after the other on a set of machines.
pub mod Machines
pub mod TestSets
pub mod Loop
pub mod Progress
pub mod Statistics
pub mod Analysis
pub mod Main
