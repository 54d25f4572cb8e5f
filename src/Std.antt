-- ===== src/Std.antt =====
-- The standard library, as far as the program uses it.
pub mod Strings
pub mod Space
pub mod FilePath
pub mod WalkDir
pub mod Strconv
pub mod Base64
