-- ===== src/Tests.antt =====
-- Concrete runs, which show that the hypotheses of the theorems hold for real inputs.
pub mod Plain
pub mod Pairs
pub mod Devices
pub mod Drivers
pub mod Module
pub mod Machine
pub mod Answers
pub mod Loads
pub mod Buses
