-- ===== src/Tests.antt =====
-- Concrete inputs: the properties applied to small lists and tables.
pub mod Data
pub mod Boot
pub mod Lists
pub mod Processes
pub mod Semaphores
pub mod Nucleus
pub mod Turns
pub mod Traps
pub mod Creation
pub mod Families
