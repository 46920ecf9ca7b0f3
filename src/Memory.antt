-- ===== src/Memory.antt =====
-- Memory as the code uses it: `char*` buffers that `memcpy` reads and writes, and 32-bit integers.
pub mod Words
pub mod Buffer
pub mod Cursor
pub mod Reader
pub mod Slices
