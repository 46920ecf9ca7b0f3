-- ===== src/Storage.antt =====
-- include/storage: the files of blocks, the pool of memory slots, and the watcher that lends a
-- block's slot to one writer or several readers.
pub mod Files
pub mod Pool
pub mod Watcher
pub mod Disk
pub mod Cycle
pub mod Extend
pub mod Deadlock
