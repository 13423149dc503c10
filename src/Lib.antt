-- ===== src/Lib.antt =====
-- mboot: a 32-bit x86 kernel with a boot loader, a heap, round-robin tasks, a FAT16 file system and
-- a small IPv4 stack.
--
-- Parts of the program and how they meet. The loader (stage1, stage2/loader.c) hands the BIOS memory
-- map to the heap (stage2/mem.c), from which every other part takes its memory. The timer interrupt
-- calls the scheduler (stage2/scheduler.c), whose sleeping and waking the terminals, the sockets and
-- the disk use. Frames that the network card receives go through stage2/net/eth.c to ARP and IPv4,
-- and through IPv4 to ICMP and UDP; a UDP server keeps the datagrams of its port until a socket reads
-- them, and wakes the tasks that sleep on the port.
--
-- Which file models which part:
--   Mem.antt, Mem/        the heap of stage2/mem.c and inc/mem.h. Heap is the memory as the
--                         allocator sees it: the headers at their addresses, the payload bytes, and
--                         the globals free_list_head, bump_next, free_ram, free_ram_end. kmalloc,
--                         kfree and their helpers keep their names; the loops over the free list run
--                         on fuel, the address of the end of memory plus one, which is enough since
--                         the list ascends. halted is the cli; hlt of an exhausted heap. Mem/E820
--                         has the selection of the region.
--   Scheduler.antt,       stage2/scheduler.c. The circular list of tasks is a list whose head is the
--   Scheduler/            current task. scheduler_init, scheduler_tick, scheduler_perform_switch,
--                         scheduler_block, scheduler_wake, fork_current, scheduler_exit_current and
--                         scheduler_find_by_pid keep their names; add_task is the common end of the
--                         functions that create tasks, wait_start and wait_end are
--                         scheduler_wait_pid before and behind its sleep. Scheduler/Steps has the
--                         sequences of these operations.
--   Net/Udp.antt,         the user servers of stage2/net/udp.c: the table of four servers and the
--   Net/Udp/              ring of sixteen datagrams of each. A datagram beyond the 1472 bytes of a
--                         slot has no result. Net/Udp/Early is about the tasks that an arrival wakes
--                         while they wait for another task.
--   Net/Checksum.antt,    the checksums of stage2/net/udp.c and ipv4.c, the segment that udp_send
--   Net/Checksum/         builds and the tests of udp_process_packet up to its delivery. The carry
--                         loop runs on fuel of two rounds, which are enough for 32 bits.
--   Net/Arp.antt,         stage2/net/arp.c but for arp_resolve, which polls the network card, and
--   Net/Arp/              ipv4_is_local_address of stage2/net/ipv4.c. The card's address is an
--                         argument, a frame that is sent a result.
--   Paging.antt,          paging_init and paging_map_page of stage2/paging.c on a memory of 32-bit
--   Paging/               words. Paging/Mapping states the processor's translation of an address,
--                         with pages of 4 KiB and of 4 MiB; the accessed and dirty bits and the
--                         translation cache are left out.
--   Net/Socket.antt       the table of sockets of stage2/net/socket.c, their handles and references.
--   Vfs.antt, Vfs/        the path functions of stage2/vfs.c, on strings as lists of characters up to
--                         the terminator. Vfs/Backends has what a handle names and Vfs/Fds the
--                         descriptor tables, with attach, close, dup2, fork and exit. Vfs/Devices and
--                         Vfs/Opens open a device or a file by its name. The driver's
--                         functions work on a disk of any type. Vfs/Refs to Vfs/Operations compare
--                         the reference counts with the descriptors.
--   Fat16.antt, Fat16/    stage2/fat16.c on a disk that is a function from addresses to bytes, with
--                         ata_lba_read of stage2/dev/disk.c and strcasecmp of stage2/utils.c.
--                         Fat16/Volume has the boot sector and the table of clusters, Fat16/Files the
--                         open files and fat16_read, Fat16/Names and Fat16/Directory the search of
--                         a directory and fat16_open, Fat16/Mount fat16_init. The copying loop runs
--                         on one round for each byte asked for and one more, which are enough
--                         since a round copies a byte; the search of the root directory takes one.
--   Handles.antt,         stage2/vfs.c with the driver of stage2/fat16.c: the references of the open
--   Handles/              files through vfs_open, vfs_close, vfs_dup2, vfs_fork_fds and vfs_exit_fds.
--                         Handles/Steps has the sequences of these calls by several tasks,
--                         Handles/Backends the files together with the sockets and cpuinfo files.
--   Dev/Vga.antt,         the screen of stage2/dev/vga.c and the virtual terminals of
--   Dev/Early.antt,       stage2/dev/tty.c: Dev/Tty has their output, Dev/Tty/Input the queue of
--   Dev/Tty.antt,         keys, the editing of lines and tty_read. The sleep of tty_pop_input is
--   Dev/Tty/              the result `asleep`, from which the loop goes on with the same state. Fuel
--                         of 256 iterations is enough, since each takes a key from the queue.
--   Dev/Keyboard.antt,    stage2/dev/keyboard.c. A read behind the end of a table has no result.
--   Dev/Keyboard/
--   Dev/Ring.antt         what a circular buffer of 256 bytes holds.
--   Libc/Division.antt,   the 64-bit division at the end of user/src/libc.c.
--   Libc/Division/
--   Libc/Numbers.antt,    strtol, strtoul and atoi of user/src/libc.c, on 32-bit patterns; a signed
--                         overflow, which C leaves open, is `none`.
--   Libc/Numbers/
--   Prelude.antt,         names of the libraries, Boolean tests, lists, and masks of machine words.
--   Prelude/
--
-- Conventions: numbers are natural numbers, and 32-, 16- and 8-bit arithmetic is written with its
-- wrap-around (% 2 ^ w). An error return is `none`. What a function gives through pointers is in its
-- result. Locks and CLI have no counterpart: a function runs to its end before the next. The tests for
-- null pointers that guard an argument have none either: the arguments are there.
--
-- Not modelled: port and device access, interrupt and descriptor tables, the assembly stubs, the
-- printing of logs, the boot loaders, the programs under user/, among them the copy of Lua, and
-- user/src/libc.c but for its division and its numerals.
-- The clone and the release of page directories, the ELF loader, the reads and writes of descriptors
-- and of sockets, ICMP and the header of IPv4 are not modelled. The disk answers every command at
-- once: its errors, its time-outs and its lock are left out, and so is the log of a directory
-- (read_directory).
pub mod Prelude
pub mod Mem
pub mod Scheduler
pub mod Paging
pub mod Net
pub mod Vfs
pub mod Dev
pub mod Libc
pub mod Fat16
pub mod Handles
