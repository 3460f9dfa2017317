-- ===== src/Fs.antt =====
-- kernel/fs.c on one device, as its parts: the blocks, the bitmap of free blocks, inodes, the content
-- of a file, directories and path names. One process runs, and the itable's spin lock is not part of
-- the model; an inode's sleep lock is. A block is read and written in the buffer cache, and `log_write`
-- puts its number on a list.
pub mod Disk
pub mod Bitmap
pub mod Inodes
pub mod Content
pub mod Truncate
pub mod Directory
pub mod FilePath
mod Examples
