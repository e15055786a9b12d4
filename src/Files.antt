-- ===== src/Files.antt =====
-- Names and directory entries of the queue directory: what internal/queue/queue.go uses of
-- package strconv, strings, fmt and os. A file name is its bytes.
pub mod Bytes
pub mod Decimal
pub mod Order
pub mod Entry
pub mod Directory
pub mod Maps
