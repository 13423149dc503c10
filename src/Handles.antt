-- ===== src/Handles.antt =====
-- The files of stage2/fat16.c under the descriptors of stage2/vfs.c: the reference counts of the open
-- files are the numbers of descriptors that hold them, whatever the tasks do.
pub mod Counts
pub mod Driver
pub mod Operations
pub mod Closing
pub mod Duplicating
pub mod Placing
pub mod OpenPath
pub mod Lengths
pub mod Tables
pub mod Steps
pub mod Rebinding
pub mod Backends
mod Tests
