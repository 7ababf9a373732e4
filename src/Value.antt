-- ===== src/Value.antt =====
-- The values of src/value/value.c and the objects of src/object/object.c.
pub mod Number
pub mod Objects
