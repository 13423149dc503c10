-- ===== src/Fat16.antt =====
-- The FAT16 file system of stage2/fat16.c, with the disk reads of stage2/dev/disk.c.
pub mod Disk
pub mod Volume
pub mod Files
pub mod Names
pub mod Directory
pub mod Mount
mod Tests
