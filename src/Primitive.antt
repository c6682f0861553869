-- ===== src/Primitive.antt =====
-- bacpypes3/primitivedata.py: tags, lists of tags, and the primitive types that they carry.
pub mod Tag
pub mod TagList
pub mod Atomic
pub mod Unsigned
pub mod Integer
pub mod Simple
pub mod BitString
mod Tests
