-- ===== src/State.antt =====
-- The abstract machine state: src/state and the arrays of src/object.
pub mod Heap
pub mod Location
pub mod Block
pub mod Clump
pub mod Machine
pub mod Stack
pub mod Static
pub mod Vconst
