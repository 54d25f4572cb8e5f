-- ===== src/Config.antt =====
-- The configuration records with their Default and Validate methods.
pub mod Loop
pub mod Sections
pub mod Defaults
pub mod Whole
pub mod Tree
pub mod Load
