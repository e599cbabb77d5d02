-- ===== src/Db.antt =====
-- core-go/db.go: the call states, the batch insert, the writer and the partitions.
pub mod CallState
pub mod Record
pub mod Batch
pub mod Writer
pub mod Partitions
