-- ===== src/Sync.antt =====
-- Delta sync: the data that peers exchange, the export and the last-writer-wins import of rows, the
-- cursor, and the round that puts them together.
pub mod Json
pub mod Types
pub mod Sqlite
pub mod Cursor
pub mod Export
pub mod Apply
pub mod Round
pub mod Schema
pub mod Interval
pub mod Memory
pub mod Shelf
pub mod Examples
