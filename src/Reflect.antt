-- ===== src/Reflect.antt =====
-- pkg/reflect: walking the fields of a struct.
pub mod Walk
pub mod Kinds
