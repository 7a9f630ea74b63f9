-- ===== src/Fs.antt =====
-- fs: a file system's blocks, and the blocks of its files.
pub mod Device
pub mod Bitmap
pub mod Bmap
pub mod Truncate
mod Tests
