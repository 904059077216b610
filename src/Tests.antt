-- ===== src/Tests.antt =====
-- Sample data, runs of the models on it, and uses of the theorems at it.
mod Sample
mod Calc
mod Engine
mod KrList
mod KrQueue
mod KrCache
mod KrHashset
mod KrDatetime
mod KrString
mod Message
mod Build
mod Json
mod Shape
mod Data
mod History
mod Db
