-- ===== src/Containers.antt =====
-- The standard library's ordered sets and maps, and vectors that are kept to a capacity.
pub mod Order
pub mod OrdSet
pub mod OrdMap
pub mod Totals
pub mod Ring
