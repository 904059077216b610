-- ===== src/Utils.antt =====
-- The containers of krutils: lists on an explicit heap.
pub mod Heap
pub mod KrList
pub mod KrQueue
pub mod KrCache
pub mod KrHashset
pub mod KrDatetime
pub mod KrString
