-- ===== src/Util.antt =====
-- The helpers of src/util/util.c: string maps, string arrays, circuit breakers and error chains.
pub mod Map
pub mod StringArr
pub mod Breaker
pub mod Error
