-- ===== src/Vmshed.antt =====
-- virter/vmshed_tests_generator.py: which tests run, on which machines and in which variants.
pub mod Version
pub mod Select
